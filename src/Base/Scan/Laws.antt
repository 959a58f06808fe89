-- ===== src/Base/Scan/Laws.antt =====
-- The conversions read back what the C library prints.
use Prim.Native.Nat.{ℕ, zero, suc, ◌^◌, ◌≤◌, ◌<◌}
use mathlib.Core.Path.{◌≡◌, refl, ap, ◌∙◌}
use mathlib.Core.Bool.{Bool, false}
use mathlib.Core.Option.{none, some}
use mathlib.Core.List.{[], ◌∷◌, ◌++◌}
use native.Mathlib.Omega.{arith}
use digit.Base.Tests.{◌==◌}
use digit.Base.Lists.{length}
use digit.Base.Bytes.{Text, has_char}
use digit.Base.Decimal.{
  is_digit, to_dec, dec_value, IsDigits, EndsNumber, to_dec-IsDigits, dec_value-to_dec,
  length-to_dec-pos, span_digits-append,
}
use digit.Base.Scan.{
  Scan, ◌>>=◌, span_until, until, is_space, skip_spaces, to_unsigned, to_int, number, unsigned_int,
  unsigned_long_long, int,
}

-- What may follow a run that `stop` ends.
abbrev pub EndsRun : ℕ → Text → Type 0
EndsRun stop [] = Unit
EndsRun stop (c ∷ s) = c ≡ stop

span_until-append :
    (width stop : ℕ) (run rest : Text)
    → length run ≤ width
    → has_char stop run ≡ false
    → EndsRun stop rest
    → span_until width stop (run ++ rest) ≡ (run, rest)
unfolding span_until has_char
span_until-append zero stop [] rest h l e = refl
span_until-append zero stop (c ∷ run) rest h l e = absurd (omega arith)
span_until-append (suc w) stop [] [] h l e = refl
span_until-append (suc w) stop [] (c ∷ s) h l e = ground arith
span_until-append (suc w) stop (c ∷ run) rest h l e =
    ground (arith, span_until-append w stop run rest)

pub until-append :
    (width stop : ℕ) (run rest : Text)
    → 0 < length run
    → length run ≤ width
    → has_char stop run ≡ false
    → EndsRun stop rest
    → until width stop (run ++ rest) ≡ some (run, rest)
unfolding until
until-append width stop [] rest p h l e = absurd (omega arith)
until-append width stop (c ∷ run) rest p h l e =
    rw (span_until-append width stop (c ∷ run) rest h l e)

-- An empty field stops the scan.
pub until-empty : (width stop : ℕ) (s : Text) → until width stop (stop ∷ s) ≡ none
unfolding until span_until
until-empty zero stop s = refl
until-empty (suc w) stop s = ground arith

module _ (convert : Bool → ℕ → ℕ) where
  number_after-digits :
      (ds rest : Text)
      → 0 < length ds
      → IsDigits ds
      → EndsNumber rest
      → number convert (ds ++ rest) ≡ some (convert false (dec_value 0 ds), rest)
  unfolding number
  number_after-digits [] rest p h e = absurd (omega arith)
  number_after-digits (d ∷ ds) rest p h e =
      let space : is_space d ≡ false = unfold is_space is_digit in ground (arith, h.0) in
      let minus : (d == b'-') ≡ false = unfold is_digit in ground (arith, h.0) in
      let plus : (d == b'+') ≡ false = unfold is_digit in ground (arith, h.0) in
      rw (space, minus, plus, span_digits-append (d ∷ ds) rest h e)

  number-to_dec :
      (n : ℕ) (rest : Text)
      → EndsNumber rest
      → number convert (to_dec n ++ rest) ≡ some (convert false n, rest)
  number-to_dec n rest e =
      number_after-digits (to_dec n) rest (length-to_dec-pos n) (to_dec-IsDigits n) e
      ∙ rw (dec_value-to_dec n)

pub unsigned_int-to_dec :
    (n : ℕ) (rest : Text)
    → n < 2 ^ 32
    → EndsNumber rest
    → unsigned_int (to_dec n ++ rest) ≡ some (n, rest)
unfolding unsigned_int to_unsigned
unsigned_int-to_dec n rest h e =
    number-to_dec (to_unsigned 32) n rest e ∙ ap (λ (k : ℕ). some (k, rest)) (omega arith)

pub unsigned_long_long-to_dec :
    (n : ℕ) (rest : Text)
    → n < 2 ^ 64
    → EndsNumber rest
    → unsigned_long_long (to_dec n ++ rest) ≡ some (n, rest)
unfolding unsigned_long_long to_unsigned
unsigned_long_long-to_dec n rest h e =
    number-to_dec (to_unsigned 64) n rest e ∙ ap (λ (k : ℕ). some (k, rest)) (omega arith)

pub int-to_dec :
    (n : ℕ) (rest : Text) → n < 2 ^ 31 → EndsNumber rest → int (to_dec n ++ rest) ≡ some (n, rest)
unfolding int to_int
int-to_dec n rest h e = number-to_dec to_int n rest e ∙ ap (λ (k : ℕ). some (k, rest)) (omega arith)

-- A text that white space does not begin.
abbrev pub StartsSolid : Text → Type 0
StartsSolid [] = Unit
StartsSolid (c ∷ s) = is_space c ≡ false

pub skip_spaces-solid : (s : Text) → StartsSolid s → skip_spaces s ≡ s
unfolding skip_spaces
skip_spaces-solid [] h = refl
skip_spaces-solid (c ∷ s) h = rw h

-- A conversion that succeeds hands its result and the rest of the text on.
pub bind-eq :
    {A B : Type 0} (m : Scan A) (f : A → Scan B) (s : Text) {a : A} {rest : Text}
    → m s ≡ some (a, rest)
    → (m >>= f) s ≡ f a rest
bind-eq m f s e = rw (e, ◌>>=◌)

pub bind-none :
    {A B : Type 0} (m : Scan A) (f : A → Scan B) (s : Text) → m s ≡ none → (m >>= f) s ≡ none
bind-none m f s e = rw (e, ◌>>=◌)
