-- ===== src/Base/Strings.antt =====
-- JavaScript strings as lists of UTF-16 code units, with the methods that the programs call.
use Prim.Native.Nat.{ℕ, zero, suc, ◌+◌, ◌≤◌, ◌-◌, ◌/◌, ◌%◌}
use Prim.Native.Char.{code}
use Prim.Native.String.{String}
use mathlib.Core.Path.{◌≡◌, refl}
use mathlib.Core.Logic.{◌≢◌}
use mathlib.Core.Bool.{Bool, true, false, not, ◌&&◌, ◌||◌}
use mathlib.Core.List.{List, [], ◌∷◌, ◌++◌}
use native.Mathlib.Omega.{arith}
use cartyx_infrastructure.Base.Tests.{◌==◌, if◌then◌else◌, ltb}
use cartyx_infrastructure.Base.Lists.{length, take, drop, length-append, take-length_append}

abbrev pub Text : Type 0
Text = List ℕ

-- A literal. The programs' own texts are ASCII, where a code point is one code unit.
unfoldable pub text : String → Text
text String.[] = []
text (String.◌∷◌ c s) = code c ∷ text s

-- `a === b`
unfoldable pub text_eq : Text → Text → Bool
text_eq [] [] = true
text_eq (a ∷ s) (b ∷ t) = (a == b) && text_eq s t
text_eq _ _ = false

-- `s.startsWith(p)`
unfoldable pub starts_with : Text → Text → Bool
starts_with s [] = true
starts_with [] (b ∷ p) = false
starts_with (a ∷ s) (b ∷ p) = (a == b) && starts_with s p

-- `s.endsWith(p)`: the last units of `s`, as many as `p` has, are `p`.
unfoldable pub ends_with : Text → Text → Bool
unfolding text_eq
ends_with s p =
    if ltb (length s) (length p) then false else text_eq (drop (length s - length p) s) p

-- `s.slice(0, -n)`
unfoldable pub drop_last : ℕ → Text → Text
drop_last n s = take (length s - n) s

-- `xs.includes(s)`
unfoldable pub includes : List Text → Text → Bool
unfolding text_eq
includes [] s = false
includes (x ∷ xs) s = text_eq x s || includes xs s

-- `String(n)`: the digits are put in front from the last one on, at most `rounds` of them.
decimal_loop : ℕ → ℕ → Text → Text
decimal_loop zero n rest = rest
decimal_loop (suc rounds) n rest =
    let longer = (b'0' + n % 10) ∷ rest in
    let more = decimal_loop rounds (n / 10) longer in if ltb n 10 then longer else more

unfoldable pub decimal : ℕ → Text
unfolding decimal_loop
decimal n = decimal_loop (suc n) n []

pub text_eq_refl : (s : Text) → text_eq s s ≡ true
unfolding text_eq
text_eq_refl [] = refl
text_eq_refl (a ∷ s) = ground (arith, text_eq_refl s)

pub eq_of_text_eq : (s t : Text) → text_eq s t ≡ true → s ≡ t
unfolding text_eq
eq_of_text_eq [] [] h = refl
eq_of_text_eq [] (b ∷ t) h = ground arith
eq_of_text_eq (a ∷ s) [] h = ground arith
eq_of_text_eq (a ∷ s) (b ∷ t) h = ground (arith, eq_of_text_eq s t)

pub ne_of_text_eq : (s t : Text) → text_eq s t ≡ false → s ≢ t
ne_of_text_eq s t h e = cc (h, e, text_eq_refl t)

pub starts_with-append : (p s : Text) → starts_with (p ++ s) p ≡ true
unfolding starts_with
starts_with-append [] s = refl
starts_with-append (a ∷ p) s = ground (arith, starts_with-append p s)

-- Dropping the length of a suffix leaves what stands before it.
pub drop_last-append : (s p : Text) → drop_last (length p) (s ++ p) ≡ s
unfolding drop_last
drop_last-append s p =
    let e : length (s ++ p) - length p ≡ length s = omega (arith, length-append s p) in
    rw e (take-length_append s p)

-- What a guard that did not throw shows.
pub true_of_guard : (b : Bool) → not b ≡ false → b ≡ true
true_of_guard b h = ground arith

pub eq_of_guard : (s t : Text) → not (text_eq s t) ≡ false → s ≡ t
eq_of_guard s t h = eq_of_text_eq s t (true_of_guard (text_eq s t) h)

pub le_of_guard : (a b : ℕ) → ltb a b ≡ false → b ≤ a
le_of_guard a b h = ground arith

-- What a guard with several reasons to throw shows if it did not.
pub both_of_guard : (a b : Bool) → a || b ≡ false → (a ≡ false) × (b ≡ false)
both_of_guard a b h = ground arith

pub number_of_guard : (a b : ℕ) → not (a == b) ≡ false → a ≡ b
number_of_guard a b h = ground arith
