-- ===== src/Loader/Tokens.antt =====
-- A concrete stdio for the tests: a stream is a list of tokens, and every path opens the same one.
use Prim.Native.String.{String}
use native.Mathlib.Nat.{mod-eq_of_lt}
use hk232_assignment_os.Base.{
  ℕ, ◌%◌, ◌^◌, ◌<◌, ◌≡◌, refl, ap, Option, none, some, List, [], ◌∷◌, arith,
}
use hk232_assignment_os.Loader.{Stdio}
use hk232_assignment_os.Loader.RoundTrip.{Token, num, word, IsScanner}

-- A number, as a word of `bits` bits.
abbrev pub take_num : ℕ → List Token → Option ℕ × List Token
take_num bits [] = (none, [])
take_num bits (num v ∷ ts) = (some (v % 2 ^ bits), ts)
take_num bits (word w ∷ ts) = (none, word w ∷ ts)

abbrev pub take_word : List Token → Option String × List Token
take_word [] = (none, [])
take_word (num v ∷ ts) = (none, num v ∷ ts)
take_word (word w ∷ ts) = (some w, ts)

abbrev pub token_stdio : List Token → Stdio (List Token)
token_stdio file = record {
  fopen = λ path. some file;
  scan_u = take_num 32;
  scan_d = take_num 32;
  scan_lu = take_num 64;
  scan_s = take_word;
  scan_space = λ f. f;
}

pub token_stdio-IsScanner : (file : List Token) → IsScanner (token_stdio file) (λ f ts. f ≡ ts)
token_stdio-IsScanner file = record {
  reads_num = λ f v ts b h. (ts, rw h (ap (λ k. (some k, ts)) (mod-eq_of_lt b)), refl);
  reads_int = λ f v ts b h.
      let small : v < 2 ^ 32 = omega arith in
      (ts, rw h (ap (λ k. (some k, ts)) (mod-eq_of_lt small)), refl);
  reads_ulong = λ f v ts b h. (ts, rw h (ap (λ k. (some k, ts)) (mod-eq_of_lt b)), refl);
  reads_word = λ f w ts h. (ts, rw h refl, refl);
  skips = λ f ts h. h;
}
