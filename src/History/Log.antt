-- ===== src/History/Log.antt =====
-- The history of a run of recordings is the end of the full log of them, and a version that has not
-- been pushed out is found again.
use mathlib.Core.Path.{subst}
use mathlib.Core.List.{append_assoc, append-nil}
use yuelaiengine_gateway.Common.{
  ℕ, suc, ◌+◌, ◌-◌, ◌%◌, ◌≤◌, ◌<◌, false, none, some, List, [], ◌∷◌, ◌++◌, ◌≡◌, ◌⊎◌, inl, inr, refl,
  ap, sym, ◌∙◌, arith, Bytes, text_eq, text_eq_iff, text_eq_refl, itoa_injective, length, take,
  take-drop, drop, length-drop, ltb, ◌==◌, length-append, ℤ, pos_part, u64, Bool-cases, ltb→lt,
}
use yuelaiengine_gateway.Config.{GatewayConfig}
use yuelaiengine_gateway.History.{
  ConfigSnapshot, History, next_version_id, version_name, bound_of, keep_last, with_default,
  record_config_snapshot, find_version,
}
use yuelaiengine_gateway.History.Keeping.{
  drop-append, keep_last_over, keep_last_under, length-keep_last, keep_last-append_all,
}

-- What is recorded at one time.
abbrev pub Entry : Type 0
Entry = ℕ × GatewayConfig × Bytes

abbrev recorded : ℕ → Entry → ConfigSnapshot
recorded n (now, cfg, source) = record {
  version = version_name n;
  source = source;
  created_at = now;
  config = some cfg;
}

-- The full log, with the versions counted from `n` on.
abbrev pub log_from : ℕ → List Entry → List ConfigSnapshot
log_from n [] = []
log_from n (e ∷ es) = recorded ((n + 1) % u64) e ∷ log_from ((n + 1) % u64) es

-- One recording after the other.
abbrev pub record_all : List Entry → History → History
record_all [] h = h
record_all ((now, cfg, source) ∷ es) h =
    record_all es (record_config_snapshot now (some cfg) source h)

bound_of-with_default : (m : ℤ) → bound_of (with_default m) ≡ bound_of m
bound_of-with_default m = elim (Bool-cases (pos_part m == 0)) [
  | inl e ↦ rw e refl
  | inr e ↦ rw e (rw e refl)
]

-- Recordings one after the other keep the same as one cut of the full log.
pub record_all-keep_last :
    (es : List Entry) (h : History)
    → length h.config_history ≤ bound_of h.max_history
    → (record_all es h).config_history
      ≡ keep_last (bound_of h.max_history) (h.config_history ++ log_from h.version_counter es)
unfolding record_config_snapshot next_version_id
record_all-keep_last [] h fits =
    sym (keep_last_under (bound_of h.max_history) h.config_history fits)
    ∙ ap (keep_last (bound_of h.max_history)) (sym (append-nil h.config_history))
record_all-keep_last ((now, cfg, source) ∷ es) h fits =
    let n = bound_of h.max_history in
    let more =
      h.config_history ++ recorded ((h.version_counter + 1) % u64) (now, cfg, source) ∷ [] in
    let next = record_config_snapshot now (some cfg) source h in
    let same = bound_of-with_default h.max_history in
    record_all-keep_last es next (rw same (length-keep_last n more))
    ∙ ap (λ k. keep_last k (keep_last n more ++ log_from next.version_counter es)) same
    ∙ keep_last-append_all n more (log_from next.version_counter es)
    ∙ ap (keep_last n) (append_assoc h.config_history _ (log_from next.version_counter es))

-- What cutting keeps is an end of the list, and all of it that the bound allows.
keep_last-IsEnd :
    {A : Type 0}
    → (n : ℕ) (xs : List A)
    → (dropped : List A) × (xs ≡ dropped ++ keep_last n xs)
      × (length (keep_last n xs) ≤ n)
      × ((dropped ≡ []) ⊎ (length (keep_last n xs) ≡ n))
keep_last-IsEnd n xs = elim (Bool-cases (ltb n (length xs))) [
  | inr e ↦
      let all = keep_last_under n xs (ground arith) in
      ([], sym all, length-keep_last n xs, inl refl)
  | inl e ↦
      let more = ltb→lt n (length xs) e in
      let k = length xs - n in
      let kept = keep_last_over n xs more in
      (
        take k xs,
        take-drop k xs ∙ ap (λ l. take k xs ++ l) (sym kept),
        length-keep_last n xs,
        inr (ap length kept ∙ omega (arith, length-drop k xs, more)),
      )
]

-- How many snapshots are to be kept: as many as are set, or else 20.
abbrev pub IsBound : ℤ → ℕ → Type 0
IsBound max n = ((0 < pos_part max) × (n ≡ pos_part max)) ⊎ ((pos_part max ≡ 0) × (n ≡ 20))

bound_of-IsBound : (max : ℤ) (n : ℕ) → IsBound max n → bound_of max ≡ n
bound_of-IsBound max n b = ground arith

-- However many configurations are recorded: the full log of the snapshots, those of before and one for
-- each recording in its order, with the versions counted on, is what was dropped followed by the
-- history, so the history is the newest snapshots in the order of recording. There are at most as many
-- as the bound, which is the one that is set, or 20 where none above 0 is, and exactly as many where any
-- was dropped. The history was within the bound before.
pub record_all-newest :
    (es : List Entry) (h : History) (n : ℕ)
    → IsBound h.max_history n
    → length h.config_history ≤ n
    → let kept = (record_all es h).config_history in
      (dropped : List ConfigSnapshot) × (h.config_history ++ log_from h.version_counter es
        ≡ dropped ++ kept)
      × (length kept ≤ n)
      × ((dropped ≡ []) ⊎ (length kept ≡ n))
record_all-newest es h n bound fits =
    let log = h.config_history ++ log_from h.version_counter es in
    let b = bound_of-IsBound h.max_history n bound in
    let same : keep_last n log ≡ (record_all es h).config_history =
      ap (λ k. keep_last k log) (sym b)
      ∙ sym (record_all-keep_last es h (omega (arith, b, fits))) in
    let (dropped, e, few, full) = keep_last-IsEnd n log in
    (
      dropped,
      e ∙ ap (λ l. dropped ++ l) same,
      subst (λ (l : List ConfigSnapshot). length l ≤ n) same few,
      subst (λ (l : List ConfigSnapshot). (dropped ≡ []) ⊎ (length l ≡ n)) same full,
    )

version_name_injective : (m n : ℕ) → m < u64 → n < u64 → version_name m ≡ version_name n → m ≡ n
version_name_injective m n h k e =
    itoa_injective m n (omega (arith, h)) (omega (arith, k)) (ground arith)

-- A later snapshot of the log has another version, as long as the counter does not wrap.
find_version-log_from :
    (m n : ℕ) (es : List Entry)
    → m ≤ n
    → n + length es < u64
    → find_version (version_name m) (log_from n es) ≡ none
unfolding find_version
find_version-log_from m n [] h k = refl
find_version-log_from m n (e ∷ es) h k =
    let next : (n + 1) % u64 ≡ n + 1 = omega (arith, k) in
    let later =
      find_version-log_from m ((n + 1) % u64) es (omega (arith, h, next))
        (omega (arith, k, next)) in
    let differ : text_eq (version_name ((n + 1) % u64)) (version_name m) ≡ false =
      elim (Bool-cases (text_eq (version_name ((n + 1) % u64)) (version_name m))) [
        | inr f ↦ f
        | inl t ↦
            let same =
              version_name_injective ((n + 1) % u64) m (omega (arith, k)) (omega (arith, h, k))
                ((text_eq_iff _ _).0 t) in
            absurd (omega (arith, same, next, h))
      ] in
    rw (later, differ) refl

length-log_from : (n : ℕ) (es : List Entry) → length (log_from n es) ≡ length es
length-log_from n [] = refl
length-log_from n (e ∷ es) = ap suc (length-log_from ((n + 1) % u64) es)

-- The newest snapshot of a version is found, whatever came before it.
find_version-newest :
    (xs : List ConfigSnapshot) (s : ConfigSnapshot) (ys : List ConfigSnapshot)
    → find_version s.version ys ≡ none
    → find_version s.version (xs ++ s ∷ ys) ≡ some s
unfolding find_version
find_version-newest [] s ys h = rw (h, text_eq_refl s.version) refl
find_version-newest (x ∷ xs) s ys h = rw (find_version-newest xs s ys h) refl

find_version-keep_last :
    (n : ℕ) (xs : List ConfigSnapshot) (s : ConfigSnapshot) (ys : List ConfigSnapshot)
    → length ys < n
    → find_version s.version ys ≡ none
    → find_version s.version (keep_last n (xs ++ s ∷ ys)) ≡ some s
find_version-keep_last n xs s ys few h = elim (Bool-cases (ltb n (length (xs ++ s ∷ ys)))) [
  | inr e ↦
      ap (find_version s.version) (keep_last_under n (xs ++ s ∷ ys) (ground arith))
      ∙ find_version-newest xs s ys h
  | inl e ↦
      let more = ltb→lt n (length (xs ++ s ∷ ys)) e in
      let k = length (xs ++ s ∷ ys) - n in
      ap (find_version s.version) (
        keep_last_over n (xs ++ s ∷ ys) more
        ∙ drop-append k xs (s ∷ ys) (omega (arith, length-append xs (s ∷ ys), few, more)))
      ∙ find_version-newest (drop k xs) s ys h
]

-- A configuration that was recorded is found again by its version, as long as fewer than the bound have
-- been recorded since; the counter starts below its end.
pub find_version-record_all :
    (now : ℕ) (cfg : GatewayConfig) (source : Bytes) (es : List Entry) (h : History)
    → length h.config_history ≤ bound_of h.max_history
    → length es < bound_of h.max_history
    → h.version_counter + 1 + length es < u64
    → find_version
        (version_name (h.version_counter + 1))
        (record_all ((now, cfg, source) ∷ es) h).config_history
      ≡ some (recorded (h.version_counter + 1) (now, cfg, source))
unfolding find_version
find_version-record_all now cfg source es h fits few small =
    let c = h.version_counter + 1 in
    let next : (h.version_counter + 1) % u64 ≡ c = omega (arith, small) in
    ap (find_version (version_name c)) (
      record_all-keep_last ((now, cfg, source) ∷ es) h fits
      ∙ ap
          (λ k.
            keep_last (bound_of h.max_history)
              (h.config_history ++ recorded k (now, cfg, source) ∷ log_from k es))
          next)
    ∙ find_version-keep_last (bound_of h.max_history) h.config_history
        (recorded c (now, cfg, source)) (log_from c es) (omega (arith, few, length-log_from c es))
        (find_version-log_from c c es (omega arith) (omega (arith, small)))
