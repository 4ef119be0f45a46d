-- ===== src/Transcoding/Frames.antt =====
-- Frames and payloads.
use yuelaiengine_gateway.Common.{
  ℕ, suc, ◌+◌, ◌/◌, ◌%◌, ◌^◌, ◌<◌, some, [], ◌∷◌, ◌++◌, ◌≡◌, ◌↔◌, inl, inr, ap, sym, arith, Bytes,
  length, All, ◌==◌, ==_iff, Bool-cases, some_injective, none-some,
}
use yuelaiengine_gateway.Transcoding.{put_uint32, uint32, wrap_grpc_frame, unwrap_grpc_frame}

abbrev pub IsByte : ℕ → Type 0
IsByte b = b < 256

put-uint32 :
    (a b c d n : ℕ)
    → a < 256
    → b < 256
    → c < 256
    → d < 256
    → n ≡ uint32 a b c d
    → put_uint32 n ≡ a ∷ b ∷ c ∷ d ∷ []
put-uint32 a b c d n ha hb hc hd e =
    let first : n / 2 ^ 24 % 256 ≡ a = omega arith in
    let second : n / 2 ^ 16 % 256 ≡ b = omega arith in
    let third : n / 2 ^ 8 % 256 ≡ c = omega arith in
    let fourth : n % 256 ≡ d = omega arith in rw (first, second, third, fourth)

pub unwrap_grpc_frame-wrap :
    (payload : Bytes)
    → length payload < 2 ^ 32
    → unwrap_grpc_frame (wrap_grpc_frame payload) ≡ some payload
unfolding wrap_grpc_frame unwrap_grpc_frame
unwrap_grpc_frame-wrap payload h =
    let n : ℕ = length payload % 2 ^ 32 in
    let same : uint32 (n / 2 ^ 24 % 256) (n / 2 ^ 16 % 256) (n / 2 ^ 8 % 256) (n % 256)
        ≡ length payload =
      omega arith in
    ground (arith, same)

unwrap-wrapped :
    (flag a b c d : ℕ) (rest payload : Bytes)
    → All IsByte (flag ∷ a ∷ b ∷ c ∷ d ∷ rest)
    → unwrap_grpc_frame (flag ∷ a ∷ b ∷ c ∷ d ∷ rest) ≡ some payload
    → (flag ∷ a ∷ b ∷ c ∷ d ∷ rest ≡ wrap_grpc_frame payload) × (length payload < 2 ^ 32)
unfolding wrap_grpc_frame unwrap_grpc_frame
unwrap-wrapped flag a b c d rest payload (hf, (ha, (hb, (hc, (hd, hr))))) h =
    elim (Bool-cases (flag == 0)) [
      | inr f ↦ absurd (none-some payload (rw (f, unwrap_grpc_frame) at h))
      | inl f ↦
          elim (Bool-cases (suc (suc (suc (suc (suc (length rest))))) == 5 + uint32 a b c d)) [
            | inr l ↦ absurd (none-some payload (rw (f, l, unwrap_grpc_frame) at h))
            | inl l ↦
                let same : rest ≡ payload =
                  some_injective rest payload (rw (f, l, unwrap_grpc_frame) at h) in
                let size : length rest ≡ uint32 a b c d = ground (arith, l) in
                let zero_flag : flag ≡ 0 = (==_iff flag 0).0 f in
                let fits : length rest < 2 ^ 32 = omega arith in
                let cut : length rest % 2 ^ 32 ≡ uint32 a b c d = omega arith in
                let head = put-uint32 a b c d (length rest % 2 ^ 32) ha hb hc hd cut in
                rw (← same) (rw zero_flag (ap (λ (ds : Bytes). 0 ∷ ds ++ rest) (sym head)), fits)
          ]
    ]

-- A frame of bytes is taken apart into a payload exactly if it is the frame that is made of the payload
-- and the payload is shorter than 2 ^ 32.
pub unwrap_grpc_frame_iff :
    (frame payload : Bytes)
    → All IsByte frame
    → (unwrap_grpc_frame frame ≡ some payload)
      ↔ ((frame ≡ wrap_grpc_frame payload) × (length payload < 2 ^ 32))
unfolding unwrap_grpc_frame
unwrap_grpc_frame_iff frame payload h =
    (λ e. to frame h e, λ (e, fits). rw e (unwrap_grpc_frame-wrap payload fits))
  where
    to :
        (frame : Bytes)
        → All IsByte frame
        → unwrap_grpc_frame frame ≡ some payload
        → (frame ≡ wrap_grpc_frame payload) × (length payload < 2 ^ 32)
    to (flag ∷ a ∷ b ∷ c ∷ d ∷ rest) h e = unwrap-wrapped flag a b c d rest payload h e
    to [] h e = absurd (none-some payload e)
    to (a ∷ []) h e = absurd (none-some payload e)
    to (a ∷ b ∷ []) h e = absurd (none-some payload e)
    to (a ∷ b ∷ c ∷ []) h e = absurd (none-some payload e)
    to (a ∷ b ∷ c ∷ d ∷ []) h e = absurd (none-some payload e)
