-- ===== src/JsonSchema/Bounded.antt =====
-- The length of the texts that a validation answers with.
use Prim.Native.String.{◌++◌ as string_append}
use Prim.Native.String.append.{nil as append_nil, cons as append_cons}
use ravana.Prelude.{
  ℕ, zero, suc, ◌+◌, ◌-◌, ◌/◌, ◌≤◌, ◌≡◌, ap, ◌∙◌, String, arith, leb, leb→le, if_cases,
}
use ravana.Text.{length, take, drop}
use ravana.JsonSchema.Texts.{marker, last, around, truncate}

length-string_append : (s t : String) → length (string_append s t) ≡ length s + length t
unfolding length
length-string_append String.[] t = ap length (λ i. append_nil t i) ∙ omega arith
length-string_append (String.◌∷◌ c s) t =
    ap length (λ i. append_cons c s t i) ∙ omega (arith, length-string_append s t)

length-take : (n : ℕ) (s : String) → length (take n s) ≤ n
unfolding length take
length-take zero s = omega arith
length-take (suc n) String.[] = omega arith
length-take (suc n) (String.◌∷◌ c s) = omega (arith, length-take n s)

length-drop : (n : ℕ) (s : String) → length (drop n s) ≡ length s - n
unfolding length drop
length-drop zero s = omega arith
length-drop (suc n) String.[] = omega arith
length-drop (suc n) (String.◌∷◌ c s) = omega (arith, length-drop n s)

length-around :
    (head tail : ℕ) (s : String) → length (around head tail s) ≤ head + (length marker + tail)
length-around head tail s = omega (
  arith,
  length-string_append (take head s) (string_append marker (last tail s)),
  length-string_append marker (last tail s),
  length-take head s,
  length-drop (length s - tail) s,
)

pub length-truncate :
    (limit : ℕ) (s : String) → length marker ≤ limit → length (truncate limit s) ≤ limit
unfolding truncate
length-truncate limit s fits =
    if_cases (λ t. length t ≤ limit) (leb (length s) limit) (λ yes. leb→le _ _ yes)
      (λ no. omega (
        arith,
        length-around ((limit - length marker) / 2)
            ((limit - length marker) - (limit - length marker) / 2) s,
      ))
