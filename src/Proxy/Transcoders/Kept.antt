-- ===== src/Proxy/Transcoders/Kept.antt =====
-- How long a transcoder is used.
use yuelaiengine_gateway.Common.{
  Bool, true, false, Option, none, some, List, [], ◌∷◌, ◌≡◌, inl, inr, refl, ap, ◌∙◌, sym, Bytes,
  Map, get, get-put, get-put_self, text_eq, text_eq_iff, none-some, Bool-cases, if◌then◌else◌,
}
use yuelaiengine_gateway.Config.{RouteConfig}
use yuelaiengine_gateway.Validation.{convert_mode, is_no_convert, is_known_convert}
use yuelaiengine_gateway.Transcoding.{RouteTranscoder}
use yuelaiengine_gateway.Transcoding.Resolver.{
  Disk, Registry, DescriptorCacheEntry, new_route_transcoder,
}
use yuelaiengine_gateway.Proxy.Transcoders.{
  Caches, transcoder_cache_key, after_new, cached_or_new, prepare_transcoder,
}

abbrev Answer : Type 0 → Type 0
Answer T = Option (Bytes × Option T)

-- An answer tells its mode and its transcoder.
answer_parts :
    {T : Type 0}
    → (a b : Bytes) (u v : Option T) → ◌≡◌ {A = Answer T} (some (a, u)) (some (b, v))
    → (a ≡ b) × (u ≡ v)
answer_parts a b u v e =
    (ap (λ o. elim o [ none ↦ a | some p ↦ p.0 ]) e, ap (λ o. elim o [ none ↦ u | some p ↦ p.1 ]) e)

-- Only the third branch answers with a transcoder.
tests_told :
    {C T : Type 0}
    → (p q : Bool) (c : C) (rest : C × Answer T) (mode : Bytes) (t : T)
    → (if p then (c, some ([], none)) else (if q then rest else (c, none))).1 ≡ some (mode, some t)
    → (p ≡ false) × (q ≡ true)
tests_told true q c rest mode t e = absurd (none-some t ((answer_parts [] mode none (some t) e).1))
tests_told false true c rest mode t e = (refl, refl)
tests_told false false c rest mode t e = absurd (none-some (mode, some t) e)

module _ {D F : Type 0} (libs : Registry D F) where
  -- The cache holds a transcoder under the key.
  abbrev pub Holds : Bytes → RouteTranscoder D → Caches D F → Type 0
  Holds key t c = get key c.transcoders ≡ some t

  after_new-Holds :
      (key : Bytes) (t : RouteTranscoder D) (route : RouteConfig) (c : Caches D F)
      (made : Map (DescriptorCacheEntry F) × Option (RouteTranscoder D))
      → get (transcoder_cache_key route) c.transcoders ≡ none
      → Holds key t c
      → Holds key t (after_new libs route c made).0
  after_new-Holds key t route c (descriptors, none) free held = held
  after_new-Holds key t route c (descriptors, some u) free held =
      elim (Bool-cases (text_eq (transcoder_cache_key route) key)) [
        | inl e ↦
            let same = (text_eq_iff (transcoder_cache_key route) key).0 e in
            absurd (none-some t (sym free ∙ ap (λ k. get k c.transcoders) same ∙ held))
        | inr e ↦ get-put (transcoder_cache_key route) key u c.transcoders ∙ simp e held
      ]

  cached_or_new-Holds :
      (key : Bytes) (t : RouteTranscoder D) (disk : Disk) (route : RouteConfig) (c : Caches D F)
      (found : Option (RouteTranscoder D))
      → get (transcoder_cache_key route) c.transcoders ≡ found
      → Holds key t c
      → Holds key t (cached_or_new libs disk route c found).0
  cached_or_new-Holds key t disk route c (some u) e held = held
  cached_or_new-Holds key t disk route c none e held =
      after_new-Holds key t route c (new_route_transcoder libs disk route c.descriptors) e held

  prepare_transcoder-Holds :
      (key : Bytes) (t : RouteTranscoder D) (disk : Disk) (route : RouteConfig) (c : Caches D F)
      → Holds key t c
      → Holds key t (prepare_transcoder libs disk route c).0
  unfolding prepare_transcoder
  prepare_transcoder-Holds key t disk route c held =
      elim (Bool-cases (is_no_convert (convert_mode route))) [
        | inl a ↦ simp a held
        | inr a ↦ elim (Bool-cases (is_known_convert (convert_mode route))) [
          | inr b ↦ simp (a, b) held
          | inl b ↦
              simp (a, b)
                (cached_or_new-Holds key t disk route c
                  (get (transcoder_cache_key route) c.transcoders) refl held)
        ]
      ]

  -- Requests of any routes, each with the disk as it is then.
  abbrev pub prepare_all : List (Disk × RouteConfig) → Caches D F → Caches D F
  prepare_all [] c = c
  prepare_all ((disk, route) ∷ calls) c = prepare_all calls (prepare_transcoder libs disk route c).0

  prepare_all-Holds :
      (key : Bytes) (t : RouteTranscoder D) (calls : List (Disk × RouteConfig)) (c : Caches D F)
      → Holds key t c
      → Holds key t (prepare_all calls c)
  prepare_all-Holds key t [] c held = held
  prepare_all-Holds key t ((disk, route) ∷ calls) c held =
      prepare_all-Holds key t calls (prepare_transcoder libs disk route c).0
        (prepare_transcoder-Holds key t disk route c held)

  -- What an answer with a transcoder tells: the mode, and that the transcoder is in the cache.
  abbrev IsKept : RouteConfig → Bytes → RouteTranscoder D → Caches D F → Type 0
  IsKept route mode t c = (convert_mode route ≡ mode) × Holds (transcoder_cache_key route) t c

  after_new-IsKept :
      (route : RouteConfig) (c : Caches D F) (mode : Bytes) (t : RouteTranscoder D)
      (made : Map (DescriptorCacheEntry F) × Option (RouteTranscoder D))
      → (after_new libs route c made).1 ≡ some (mode, some t)
      → IsKept route mode t (after_new libs route c made).0
  after_new-IsKept route c mode t (descriptors, none) e = absurd (none-some (mode, some t) e)
  after_new-IsKept route c mode t (descriptors, some u) e = (
    (answer_parts (convert_mode route) mode (some u) (some t) e).0,
    get-put_self (transcoder_cache_key route) u c.transcoders
        ∙ (answer_parts (convert_mode route) mode (some u) (some t) e).1,
  )

  cached_or_new-IsKept :
      (disk : Disk) (route : RouteConfig) (c : Caches D F) (mode : Bytes) (t : RouteTranscoder D)
      (found : Option (RouteTranscoder D))
      → get (transcoder_cache_key route) c.transcoders ≡ found
      → (cached_or_new libs disk route c found).1 ≡ some (mode, some t)
      → IsKept route mode t (cached_or_new libs disk route c found).0
  cached_or_new-IsKept disk route c mode t (some u) h e = (
    (answer_parts (convert_mode route) mode (some u) (some t) e).0,
    h ∙ (answer_parts (convert_mode route) mode (some u) (some t) e).1,
  )
  cached_or_new-IsKept disk route c mode t none h e =
      after_new-IsKept route c mode t (new_route_transcoder libs disk route c.descriptors) e

  -- The mode of the route is one of the two conversions.
  abbrev Converts : RouteConfig → Type 0
  Converts route =
      (is_no_convert (convert_mode route) ≡ false) × (is_known_convert (convert_mode route) ≡ true)

  prepare_transcoder-Converts :
      (disk : Disk) (route : RouteConfig) (c : Caches D F)
      → Converts route
      → prepare_transcoder libs disk route c
        ≡ cached_or_new libs disk route c (get (transcoder_cache_key route) c.transcoders)
  unfolding prepare_transcoder
  prepare_transcoder-Converts disk route c (a, b) = simp (a, b)

  answer-Converts :
      (disk : Disk) (route : RouteConfig) (c : Caches D F) (mode : Bytes) (t : RouteTranscoder D)
      → (prepare_transcoder libs disk route c).1 ≡ some (mode, some t)
      → Converts route
  unfolding prepare_transcoder
  answer-Converts disk route c mode t e =
      tests_told (is_no_convert (convert_mode route)) (is_known_convert (convert_mode route)) c
        (cached_or_new libs disk route c (get (transcoder_cache_key route) c.transcoders)) mode t e

  prepare_transcoder-IsKept :
      (disk : Disk) (route : RouteConfig) (c : Caches D F) (mode : Bytes) (t : RouteTranscoder D)
      → Converts route
      → (prepare_transcoder libs disk route c).1 ≡ some (mode, some t)
      → IsKept route mode t (prepare_transcoder libs disk route c).0
  prepare_transcoder-IsKept disk route c mode t h e =
      let here = prepare_transcoder-Converts disk route c h in
      let (m, held) =
        cached_or_new-IsKept disk route c mode t (get (transcoder_cache_key route) c.transcoders)
          refl (sym (ap (λ r. r.1) here) ∙ e) in
      (m, ap (λ r. get (transcoder_cache_key route) r.0.transcoders) here ∙ held)

  prepare_transcoder-held :
      (disk : Disk) (route : RouteConfig) (c : Caches D F) (t : RouteTranscoder D)
      → Converts route
      → Holds (transcoder_cache_key route) t c
      → (prepare_transcoder libs disk route c).1 ≡ some (convert_mode route, some t)
  prepare_transcoder-held disk route c t h held =
      ap (λ r. r.1) (prepare_transcoder-Converts disk route c h)
      ∙ ap (λ found. (cached_or_new libs disk route c found).1) held

  -- Once a request of a route has been given a transcoder, with its mode, every later one is given the
  -- same, whatever requests come in between, and whatever the disk holds by then: a descriptor file
  -- that has changed or is gone makes no difference.
  pub prepare_transcoder-kept :
      (disk later : Disk) (route : RouteConfig) (c : Caches D F) (mode : Bytes)
      (t : RouteTranscoder D) (calls : List (Disk × RouteConfig))
      → (prepare_transcoder libs disk route c).1 ≡ some (mode, some t)
      → (prepare_transcoder libs later route
          (prepare_all calls (prepare_transcoder libs disk route c).0)).1
        ≡ some (mode, some t)
  prepare_transcoder-kept disk later route c mode t calls e =
      let h = answer-Converts disk route c mode t e in
      let (m, held) = prepare_transcoder-IsKept disk route c mode t h e in
      let c1 = (prepare_transcoder libs disk route c).0 in
      prepare_transcoder-held later route (prepare_all calls c1) t h
        (prepare_all-Holds (transcoder_cache_key route) t calls c1 held)
      ∙ ap (λ a. some (a, some t)) m
