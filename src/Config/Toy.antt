-- ===== src/Config/Toy.antt =====
-- Documents that meet the interface of yaml-cpp's: a value for each pair of names.
use Prim.Native.String.{String}
use memo_coin.Prelude.{ℕ, ◌≡◌, refl, Bool, true, false, if◌then◌else◌, Bytes}
use memo_coin.Messages.{Result, ok, err, Error}
use memo_coin.Config.{Yaml, same_entry}

pub data Entry : Type 0 where
  missing : Entry
  text : Bytes → Entry
  number : ℕ → Entry

abbrev pub Document : Type 0
Document = String → String → Entry

abbrev string_of : Entry → Result Bytes
string_of (text s) = ok s
string_of missing = err Error.bad_conversion
string_of (number n) = err Error.bad_conversion

abbrev u64_of : Entry → Result ℕ
u64_of (number n) = ok n
u64_of missing = err Error.bad_conversion
u64_of (text s) = err Error.bad_conversion

abbrev pub set : Document → String → String → Entry → Document
set n a b v c d = if same_entry a b c d then v else n c d

abbrev pub empty : Document
empty c d = missing

module _ {A : Type 0} (f : Entry → Result A) (v w : Entry) where
  pub read_if : (b : Bool) → f (if b then v else w) ≡ (if b then f v else f w)
  read_if true = refl
  read_if false = refl

  pub read_other : (b : Bool) → b ≡ false → f (if b then v else w) ≡ f w
  read_other b h = rw h refl

abbrev pub toy : Yaml
toy = record {
  Node = Document;
  as_string = λ n c d. string_of (n c d);
  as_u64 = λ n c d. u64_of (n c d);
  set_string = λ n a b s. set n a b (text s);
  set_u64 = λ n a b k. set n a b (number k);
  as_string-set_string = λ n a b c d s. read_if string_of (text s) (n c d) (same_entry a b c d);
  as_u64-set_string = λ n a b c d s h. read_other u64_of (text s) (n c d) (same_entry a b c d) h;
  as_string-set_u64 =
      λ n a b c d k h. read_other string_of (number k) (n c d) (same_entry a b c d) h;
  as_u64-set_u64 = λ n a b c d k h. read_if u64_of (number k) (n c d) (same_entry a b c d);
}
