-- ===== src/Builder/Regrease.antt =====
-- GREASE for one connection: `pick_grease`, `_regrease_list` and `_regrease_u16_body` of
-- oracle/chbuild.py.
pub mod Laws
use browserfp.Prelude.{
  ℕ, suc, ◌+◌, ◌*◌, ◌/◌, ◌%◌, ◌<◌, ◌≡◌, refl, Bool, true, false, List, [], ◌∷◌, ◌++◌, length,
  get_elem?, get_or, take, drop, ltb, if◌then◌else◌, Option, some, none, Result, ok,
}
use browserfp.Prelude
use browserfp.Bytes.{words}
use browserfp.ClientHello.Grease.{is_grease}
use browserfp.Builder.Vec.{pack16s}
use browserfp.Builder.Draw.{Secrets, Draw, ◌>>=◌, lift, draw_below}

-- `GREASE_VALUES[i]`
abbrev pub grease_value : ℕ → ℕ
grease_value i = 0x0a0a + 0x1010 * i

pub record Grease : Type 0 where
  pub ext : List ℕ
  pub cipher : ℕ
  pub group : ℕ
  pub version : ℕ

module _ (rng : Secrets) where
  -- One set of values. The two for extensions differ by an offset of 1 to 15, so they never coincide.
  unfoldable pub pick_grease : Bool → Draw (Option Grease)
  pick_grease true = lift (ok none)
  pick_grease false = do
    i ← draw_below rng 16
    j ← draw_below rng 15
    g ← draw_below rng 16
    c ← draw_below rng 16
    v ← draw_below rng 16
    lift (
        ok (
          some (record {
            ext = grease_value i ∷ grease_value ((i + 1 + j) % 16) ∷ [];
            cipher = grease_value c;
            group = grease_value g;
            version = grease_value v;
          })))

-- `new[i % len(new)]`; no caller passes an empty list.
abbrev pub cycled : List ℕ → ℕ → ℕ → ℕ
cycled new i v = get_or v (get_elem? new (i % length new))

-- The GREASE values of a list are replaced in turn, from the `i`-th new one on.
unfoldable pub regrease_from : List ℕ → ℕ → List ℕ → List ℕ
regrease_from new i [] = []
regrease_from new i (v ∷ vs) =
    if is_grease v
    then cycled new i v ∷ regrease_from new (suc i) vs
    else v ∷ regrease_from new i vs

unfoldable pub regrease_list : List ℕ → List ℕ → List ℕ
unfolding regrease_from
regrease_list vals new = regrease_from new 0 vals

-- The body of an extension that is a length and a list of words. An odd last byte is dropped, and a new
-- value that is no word is refused.
unfoldable pub regrease_u16_body : List ℕ → ℕ → ℕ → Result (List ℕ)
unfolding regrease_list
regrease_u16_body body prefix_len new =
    let rest = drop prefix_len body in
    let packed = pack16s (regrease_list (words (length rest / 2) rest) (new ∷ [])) in
    if ltb (length body) prefix_len
    then ok body
    else Prelude.◌>>=◌ packed (λ bs. ok (take prefix_len body ++ bs))
