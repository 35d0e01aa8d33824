-- ===== src/Builder/Padding/Bounds.antt =====
-- How long a message is with its padding.
use browserfp.Prelude.{
  ℕ, ◌+◌, ◌-◌, ◌≡◌, inl, inr, false, ◌&&◌, List, ◌++◌, length, length-append, length-replicate,
  replicate, leb, ltb, if◌then◌else◌, Bool-cases, ok, ok_bind, ok-injective, arith,
}
use browserfp.ClientHello.Fingerprint.{Fingerprint}
use browserfp.Builder.Vec.{vec, pack_extension}
use browserfp.Builder.Permute.{padding_ext}
use browserfp.Builder.Padding.{ext_bytes_wo_padding, hello_len, pad, pad_lo, pad_to}
use browserfp.Bytes.{pack16}

length-pack_extension :
    (e : ℕ) (b : List ℕ) {x : List ℕ} → pack_extension e b ≡ ok x → length x ≡ 4 + length b
unfolding pack_extension vec pack16
length-pack_extension e b h = ground arith

hello_len-append :
    (profile : Fingerprint) (a b : List ℕ)
    → hello_len profile (a ++ b) ≡ hello_len profile a + length b
unfolding hello_len
hello_len-append profile a b = omega (arith, length-append a b)

abbrev pub padded_len : ℕ → ℕ
padded_len n = if ltb n 256 then n else if ltb n 509 then 512 else if ltb n 512 then n + 4 else n

-- The length of a message that is padded afresh: unchanged below 256 and from 512 on, 512 for 256 to 508 bytes
-- without padding, and four more than without it for 509 to 511.
pub pad_length :
    (profile : Fingerprint) (block padded : List ℕ)
    → pad false profile block ≡ ok padded
    → hello_len profile padded ≡ padded_len (hello_len profile (ext_bytes_wo_padding block))
unfolding pad
pad_length profile block padded h =
    let base = ext_bytes_wo_padding block in
    let fixed = hello_len profile base in
    elim (Bool-cases (leb pad_lo fixed && ltb fixed pad_to)) [
      | inl t ↦
          ok_bind (pack_extension padding_ext (replicate (pad_to - fixed - 4) 0))
            (λ p. ok (base ++ p)) (rw t at h)
            λ p ep h'.
              let n = length-pack_extension padding_ext _ ep in
              let z = length-replicate {A = ℕ} (pad_to - fixed - 4) 0 in
              rw (← ok-injective h', hello_len-append) (ground (arith, t, n, z))
      | inr t ↦ rw (← ok-injective (rw t at h)) (ground (arith, t))
    ]
