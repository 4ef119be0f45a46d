-- ===== src/Examples/Filing.antt =====
-- internal/config/config.go (Load and Save) and the watcher of internal/core/gateway_runtime.go at
-- concrete files.
use mathlib.Core.Path.{subst}
use yuelaiengine_gateway.Common.{
  ℕ, Bool, true, false, Option, none, some, List, [], ◌∷◌, ◌≡◌, ◌≢◌, inl, inr, refl, arith, Bytes,
  lit, map, Map, get, put, delete, get-put, get-put_self, get-put_ne, get-delete, text_eq,
  text_eq_iff, text_eq_refl, trim_space, pos, sym, ◌∙◌, some_injective, none-some,
}
use yuelaiengine_gateway.Config.{GatewayConfig}
use yuelaiengine_gateway.Config.File.{
  Os, missing, found, load, save, save_text, replace_file, fill_temp,
}
use yuelaiengine_gateway.Config.File.Laws.{IsOs, OnlyAt, IsRenamed}
use yuelaiengine_gateway.Config.File.Atomic.{IsSaved, save-IsSaved}
use yuelaiengine_gateway.Config.File.Loading.{IsWorking, load-save}
use yuelaiengine_gateway.Runtime.Reload.{ConfigDisk, Watched, new_watcher, start_auto_reload, tick}
use yuelaiengine_gateway.Runtime.Reload.Steps.{tick_all}
use yuelaiengine_gateway.Runtime.Reload.Current.{IsCurrent, tick_all-IsCurrent}
use yuelaiengine_gateway.Examples.Applying.{
  same_order, any_url, no_path, working, working-IsAccepted, starting,
}

-- A disk is a map from paths to texts, with one name for temporary files.
abbrev Files : Type 0
Files = Map Bytes

abbrev temp : Bytes
temp = lit ".gateway-config-1.tmp"

abbrev create : Option Bytes → Files → Files × Option Bytes
create none s = (put temp [] s, some temp)
create (some _) s = (s, none)

abbrev move : Bytes → Bytes → Option Bytes → Files → Files × Bool
move old new none s = (s, false)
move old new (some text) s = (put new text (delete old s), true)

abbrev disk : Os Files
disk = record {
  read_file = get;
  stat = λ q s. elim (get q s) [ none ↦ missing | some _ ↦ found 420 ];
  create_temp = λ _ s. create (get temp s) s;
  chmod = λ _ _ s. (s, true);
  write_bytes = λ name text s. (put name text s, true);
  sync = λ _ s. (s, true);
  close = λ _ s. (s, true);
  rename = λ old new s. move old new (get old s) s;
  remove = λ name s. (delete name s, true);
}

create-fresh :
    (name : Bytes) (s : Files) (o : Option Bytes)
    → get temp s ≡ o
    → (create o s).1 ≡ some name
    → (get name s ≡ none) × (get name (create o s).0 ≡ some []) × OnlyAt get name s (create o s).0
create-fresh name s none e h =
    subst
      (λ (n : Bytes).
        (get n s ≡ none) × (get n (put temp [] s) ≡ some []) × OnlyAt get n s (put temp [] s))
      (some_injective temp name h) (e, get-put_self temp [] s, λ q n. get-put_ne temp q [] s n)
create-fresh name s (some text) e h = absurd (none-some name h)

create-none :
    (s : Files) (o : Option Bytes)
    → (create o s).1 ≡ none
    → (q : Bytes) → get q (create o s).0 ≡ get q s
create-none s none h q = absurd (none-some temp (sym h))
create-none s (some text) h q = refl

move-false :
    (old new : Bytes) (s : Files) (o : Option Bytes)
    → (move old new o s).1 ≡ false
    → (q : Bytes) → get q (move old new o s).0 ≡ get q s
move-false old new s none h q = refl
move-false old new s (some text) h q = absurd (ground arith)

move-IsRenamed :
    (old new : Bytes) (s : Files) (o : Option Bytes)
    → get old s ≡ o
    → (move old new o s).1 ≡ true
    → IsRenamed get old new s (move old new o s).0
move-IsRenamed old new s none e h = absurd (ground arith)
move-IsRenamed old new s (some text) e h = record {
  moved = get-put_self new text (delete old s) ∙ sym e;
  gone = λ n. ground (
    arith,
    get-put new old text (delete old s),
    get-delete old old s,
    text_eq_refl old,
    text_eq_iff new old,
  );
  others = λ q n m. ground (
    arith,
    get-put new q text (delete old s),
    get-delete old q s,
    text_eq_iff new q,
    text_eq_iff old q,
  );
}

get-delete_ne : (k q : Bytes) (s : Files) → k ≢ q → get q (delete k s) ≡ get q s
get-delete_ne k q s n = ground (arith, get-delete k q s, text_eq_iff k q)

disk-IsOs : IsOs get disk
disk-IsOs = record {
  reads = λ q text s e. e;
  not_created = λ dir s h. create-none s (get temp s) h;
  created = λ dir name s h. create-fresh name s (get temp s) refl h;
  chmod = λ name mode s q. refl;
  writes = λ name text s q n. get-put_ne name q text s n;
  written = λ name text s h e. get-put_self name text s;
  sync = λ name s q. refl;
  close = λ name s q. refl;
  not_renamed = λ old new s h. move-false old new s (get old s) h;
  renamed = λ old new s h. move-IsRenamed old new s (get old s) refl h;
  remove = λ name s q n. get-delete_ne name q s n;
}

abbrev marshal : GatewayConfig → Option Bytes
marshal cfg = some cfg.port

abbrev unmarshal : Bytes → Option GatewayConfig
unmarshal text = some working

abbrev dir_of : Bytes → Bytes
dir_of path = lit "/etc"

abbrev files : Files
files = (lit "/etc/gateway.yml", lit "old") ∷ (lit "/etc/hosts", lit "one") ∷ []

save-IsSaved_example :
    IsSaved get disk disk-IsOs marshal dir_of
      (lit " /etc/gateway.yml")
      (some working)
      files
      (save disk marshal dir_of (lit " /etc/gateway.yml") (some working) files)
save-IsSaved_example =
    save-IsSaved get disk disk-IsOs marshal dir_of (lit " /etc/gateway.yml") (some working) files

move-true :
    (old new text : Bytes) (s : Files) (o : Option Bytes)
    → get old s ≡ o
    → get old s ≡ some text
    → (move old new o s).1 ≡ true
move-true old new text s none e h = absurd (none-some text (sym e ∙ h))
move-true old new text s (some t) e h = refl

disk-IsWorking : IsWorking get disk disk-IsOs
disk-IsWorking = record {
  chmods = λ name mode s. refl;
  writes = λ name text s. refl;
  syncs = λ name s. refl;
  closes = λ name s. refl;
  renames = λ old new text s h. move-true old new text s (get old s) refl h;
  readable = λ q text s e. e;
}

load-save_example :
    let (after, done) = save disk marshal dir_of (lit " /etc/gateway.yml") (some working) files in
    (done ≡ true)
    × (load disk unmarshal (trim_space (lit " /etc/gateway.yml")) after ≡ some working)
unfolding get text_eq trim_space
load-save_example =
    load-save get disk disk-IsOs disk-IsWorking marshal dir_of unmarshal (lit " /etc/gateway.yml")
      working.port temp working 420 files refl refl (λ text e. (refl, refl)) refl refl

-- A disk that refuses to rename leaves everything as it was.
save_test :
    (save
      (record disk { rename = λ _ _ s. (s, false) })
      marshal
      dir_of
      (lit "/etc/gateway.yml")
      (some working)
      files)
    ≡ (files, false)
unfolding save save_text replace_file fill_temp get put delete text_eq trim_space
save_test = refl

abbrev config_file : Bytes
config_file = lit "./configs/config.yml"

-- The file at a time, with what is loaded from it.
abbrev file_at : ℕ → Option GatewayConfig → ConfigDisk
file_at time cfg = record { modified = λ _. some time; loaded = λ _. cfg }

-- The watcher is started; the file stays the same, and is then half written.
abbrev started : Watched
started = record {
  gateway = record starting { reload_path = config_file };
  watcher = some (new_watcher config_file (pos 0) (file_at 3 (some working)));
}

start_test :
    start_auto_reload config_file
      (pos 0)
      (file_at 3 (some working))
      (record { gateway = starting; watcher = none })
    ≡ started
unfolding start_auto_reload
start_test = refl

abbrev broken_first : List (ℕ × ConfigDisk)
broken_first = (10, file_at 3 (some working)) ∷ (11, file_at 5 none) ∷ []

tick_all-IsCurrent_example :
    let before = tick_all same_order any_url no_path broken_first started in
    let current = tick same_order any_url no_path 13 (file_at 5 (some working)) before in
    IsCurrent same_order any_url no_path 13 config_file 5 working before.gateway current
    × (tick_all same_order any_url no_path
          (map (λ t. (t, file_at 5 (some working))) (16 ∷ 19 ∷ []))
          current
        ≡ current)
tick_all-IsCurrent_example =
    tick_all-IsCurrent same_order any_url no_path config_file 5 13 broken_first
      (file_at 5 (some working)) working (16 ∷ 19 ∷ []) started
      (record {
        watcher = new_watcher config_file (pos 0) (file_at 3 (some working));
        runs = refl;
        at_path = refl;
        behind = omega arith;
      })
      (inl (omega arith), (inr refl, tt)) refl refl refl working-IsAccepted
