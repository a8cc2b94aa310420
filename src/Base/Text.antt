-- ===== src/Base/Text.antt =====
-- Texts as `fmt.Sprintf("%s…")`, `"%d"` and `strconv.Itoa` make them, and what tells them apart.
use Prim.Native.Char.{code}
use Prim.Native.String.append
use text.Mathlib.TextLemmas.{append_cancel_left}
use chia_opera.Base.Core.{
  ℕ, zero, suc, ◌+◌, ◌-◌, ◌*◌, ◌/◌, ◌%◌, ◌<◌, String, ◌<>◌, ◌≡◌, ◌≢◌, sym, ap, ◌∙◌, Option, none,
  some, arith, ltb, if◌then◌else◌, Bool-cases, inl, inr,
}

-- One decimal digit.
digit : ℕ → String
digit zero = "0"
digit (suc zero) = "1"
digit (suc (suc zero)) = "2"
digit (suc (suc (suc zero))) = "3"
digit (suc (suc (suc (suc zero)))) = "4"
digit (suc (suc (suc (suc (suc zero))))) = "5"
digit (suc (suc (suc (suc (suc (suc zero)))))) = "6"
digit (suc (suc (suc (suc (suc (suc (suc zero))))))) = "7"
digit (suc (suc (suc (suc (suc (suc (suc (suc zero)))))))) = "8"
digit (suc (suc (suc (suc (suc (suc (suc (suc (suc n))))))))) = "9"

itoa_fuel : ℕ → ℕ → String
itoa_fuel zero n = ""
itoa_fuel (suc fuel) n =
    let rest = itoa_fuel fuel (n / 10) in if ltb n 10 then digit n else rest <> digit (n % 10)

-- strconv.Itoa on the numbers that the program prints, and the verb `%d`
unfoldable pub itoa : ℕ → String
unfolding itoa_fuel digit
itoa n = itoa_fuel (suc n) n

-- Reads decimal digits back.
read : ℕ → String → ℕ
read acc String.[] = acc
read acc (String.◌∷◌ c s) = read (acc * 10 + (code c - 48)) s

read-append : (acc : ℕ) (s t : String) → read acc (s <> t) ≡ read (read acc s) t
unfolding read
read-append acc String.[] t = rw (append.nil t)
read-append acc (String.◌∷◌ c s) t =
    rw (append.cons c s t) (read-append (acc * 10 + (code c - 48)) s t)

read-digit : (acc d : ℕ) → d < 10 → read acc (digit d) ≡ acc * 10 + d
unfolding read digit
read-digit acc zero h = omega arith
read-digit acc (suc zero) h = omega arith
read-digit acc (suc (suc zero)) h = omega arith
read-digit acc (suc (suc (suc zero))) h = omega arith
read-digit acc (suc (suc (suc (suc zero)))) h = omega arith
read-digit acc (suc (suc (suc (suc (suc zero))))) h = omega arith
read-digit acc (suc (suc (suc (suc (suc (suc zero)))))) h = omega arith
read-digit acc (suc (suc (suc (suc (suc (suc (suc zero))))))) h = omega arith
read-digit acc (suc (suc (suc (suc (suc (suc (suc (suc zero)))))))) h = omega arith
read-digit acc (suc (suc (suc (suc (suc (suc (suc (suc (suc zero))))))))) h = omega arith
read-digit acc (suc (suc (suc (suc (suc (suc (suc (suc (suc (suc n)))))))))) h =
    absurd (omega arith)

read-itoa_fuel : (fuel n : ℕ) → n < fuel → read 0 (itoa_fuel fuel n) ≡ n
unfolding itoa_fuel
read-itoa_fuel zero n h = absurd (omega arith)
read-itoa_fuel (suc fuel) n h = elim (Bool-cases (ltb n 10)) [
  | inl small ↦ rw small (read-digit 0 n (ground arith) ∙ omega arith)
  | inr large ↦
      rw (large, read-append, read-itoa_fuel fuel (n / 10) (ground arith))
        (read-digit (n / 10) (n % 10) (omega arith) ∙ omega arith)
]

-- Different numbers are printed differently.
pub itoa_injective : (m n : ℕ) → itoa m ≡ itoa n → m ≡ n
unfolding itoa
itoa_injective m n h =
    sym (read-itoa_fuel (suc m) m (omega arith))
    ∙ (ap (read 0) h ∙ read-itoa_fuel (suc n) n (omega arith))

-- The character at a place.
unfoldable pub nth : ℕ → String → Option ℕ
nth i String.[] = none
nth zero (String.◌∷◌ c s) = some (code c)
nth (suc i) (String.◌∷◌ c s) = nth i s

-- What stands in the front part stands in the whole.
pub nth-append : (i : ℕ) (s t : String) {c : ℕ} → nth i s ≡ some c → nth i (s <> t) ≡ some c
unfolding nth
nth-append zero String.[] t h = cc
nth-append (suc i) String.[] t h = cc
nth-append zero (String.◌∷◌ c s) t h = rw (append.cons c s t) h
nth-append (suc i) (String.◌∷◌ c s) t h = rw (append.cons c s t) (nth-append i s t h)

-- Texts with different characters at one place differ.
pub ne_of_nth :
    (i : ℕ) (s t : String) {c d : ℕ} → nth i s ≡ some c → nth i t ≡ some d → c ≢ d → s ≢ t
ne_of_nth i s t hs ht ne e = ne (cc (hs, ht, ap (nth i) e))

-- One stem with two endings makes two texts.
pub stem_cancel : (s x y : String) → s <> x ≡ s <> y → x ≡ y
stem_cancel = append_cancel_left

pub numbered_name_injective : (s : String) (i j : ℕ) → s <> itoa i ≡ s <> itoa j → i ≡ j
numbered_name_injective s i j e = itoa_injective i j (append_cancel_left s (itoa i) (itoa j) e)
