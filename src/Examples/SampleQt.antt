-- ===== src/Examples/SampleQt.antt =====
-- A small Qt: doubles are numbers, addresses and identifiers are their own texts, and a document is
-- written as its four texts, each with its length in front.
use Prim.Native.Nat.{compare, Ordering}
use Prim.Native.Char.{Char, char, code, nul, IsLt, IsScalar}
use text.Mathlib.TextEquality.{IsScalar-prop}
use text.Mathlib.TextBridge.{to_list, of_list, of_list-to_list}
use pipelinerunner.Base.{
  ℕ, ◌≡◌, refl, ◌∙◌, ap, false, List, [], ◌∷◌, ◌++◌, map, Option, some, String, string_eq, ◌==◌,
  ltb, arith, length, take, drop, take-length, drop-length, ◌≢◌,
}
use pipelinerunner.Toolkit.Value.{Value, Fields, field, end, string, find}
use pipelinerunner.Qt.{Qt, IsDocumented}

-- As IsScalar, with the comparisons as arguments.
abbrev pub BothLt : Ordering → Ordering → Type 0
BothLt Ordering.lt o = IsLt o
BothLt Ordering.eq _ = ⊥
BothLt Ordering.gt _ = ⊥

abbrev pub Scalar : Ordering → Ordering → Ordering → Type 0
Scalar Ordering.lt _ _ = Unit
Scalar Ordering.eq o p = BothLt o p
Scalar Ordering.gt o p = BothLt o p

abbrev pub both_lt_dec : (b c : Ordering) → Dec (BothLt b c)
both_lt_dec Ordering.lt Ordering.lt = yes tt
both_lt_dec Ordering.lt Ordering.eq = no λ e. e
both_lt_dec Ordering.lt Ordering.gt = no λ e. e
both_lt_dec Ordering.eq c = no λ e. e
both_lt_dec Ordering.gt c = no λ e. e

abbrev pub scalar_dec : (a b c : Ordering) → Dec (Scalar a b c)
scalar_dec Ordering.lt b c = yes tt
scalar_dec Ordering.eq b c = both_lt_dec b c
scalar_dec Ordering.gt b c = both_lt_dec b c

abbrev pub IsScalar-dec : (n : ℕ) → Dec (IsScalar n)
IsScalar-dec n = scalar_dec (compare n 55296) (compare 57343 n) (compare n 1114112)

abbrev pub char_or_nul : (n : ℕ) → Dec (IsScalar n) → Char
char_or_nul n (no _) = nul
char_or_nul n (yes p) = char n p

char_or_nul_lem : (n : ℕ) (d : Dec (IsScalar n)) (p : IsScalar n) → char_or_nul n d ≡ char n p
char_or_nul_lem n (no k) p = absurd (k p)
char_or_nul_lem n (yes q) p = ap (char n) (IsScalar-prop n q p)

abbrev pub of_code : ℕ → Char
of_code n = char_or_nul n (IsScalar-dec n)

of_code-code : (c : Char) → of_code (code c) ≡ c
of_code-code (char n p) = char_or_nul_lem n (IsScalar-dec n) p

codes : String → List ℕ
codes s = map code (to_list s)

pub of_codes : List ℕ → String
of_codes ns = of_list (map of_code ns)

of_codes-codes : (s : String) → of_codes (codes s) ≡ s
unfolding of_codes codes
of_codes-codes s = ap of_list (go (to_list s)) ∙ of_list-to_list s
  where
    go : (cs : List Char) → map of_code (map code cs) ≡ cs
    go [] = refl
    go (c ∷ cs) = rw (of_code-code c, go cs)

write_text : String → List ℕ
write_text s = length (codes s) ∷ codes s

-- The first text, and what follows it.
read_text : List ℕ → String × List ℕ
read_text [] = ("", [])
read_text (n ∷ ns) = (of_codes (take n ns), drop n ns)

read-write : (s : String) (rest : List ℕ) → read_text (write_text s ++ rest) ≡ (s, rest)
unfolding read_text write_text
read-write s rest = rw (take-length (codes s) rest, drop-length (codes s) rest, of_codes-codes s)

abbrev write_value : Value ℕ → List ℕ
write_value (string s) = write_text s
write_value _ = write_text ""

pub write_fields : Fields ℕ → List ℕ
write_fields end = []
write_fields (field k v fs) = write_text k ++ (write_value v ++ write_fields fs)

unfoldable pub read_fields : List ℕ → Option (Fields ℕ)
unfolding read_text
read_fields ns =
    let (k, ns₁) = read_text ns in
    let (s, ns₂) = read_text ns₁ in
    let (l, ns₃) = read_text ns₂ in
    let (t, _) = read_text ns₃ in some (field k (string s) (field l (string t) end))

abbrev pub sample_qt : Qt
sample_qt = record {
  Double = ℕ;
  is_negative = λ d. false;
  is_above = λ d n. ltb n d;
  truncate = λ d. d;
  HostAddress = String;
  host_of_string = λ s. s;
  host_is_null = λ s. s == "";
  Uuid = String;
  uuid_eq = string_eq;
  uuid_of_string = λ s. s;
  uuid_to_string = λ s. s;
  uuid_is_null = λ s. s == "";
  null_uuid = "";
  parse_object = read_fields;
  to_compact = write_fields;
}

pub read_two :
    (k l s t : String)
    → read_fields (write_fields (field k (string s) (field l (string t) end)))
      ≡ some (field k (string s) (field l (string t) end))
unfolding read_fields write_fields
read_two k l s t = rw (
  read-write k (write_text s ++ (write_text l ++ (write_text t ++ []))),
  read-write s (write_text l ++ (write_text t ++ [])),
  read-write l (write_text t ++ []),
  read-write t [],
)

find_first : (k : String) (v : Value ℕ) (fs : Fields ℕ) → find k (field k v fs) ≡ some v
unfolding find
find_first k v fs = ground arith

find_second :
    (k l : String) (v w : Value ℕ) (fs : Fields ℕ)
    → k ≢ l
    → find l (field k v (field l w fs)) ≡ some w
unfolding find
find_second k l v w fs n = ground arith

pub sample_documented : IsDocumented sample_qt
unfolding string_eq
sample_documented = record {
  truncate-le = λ d n _ h. ground arith;
  uuid_round = λ u. refl;
  null_uuid_is_null = refl;
  parse-to_compact = λ k l s t n. (
    field k (string s) (field l (string t) end),
    read_two k l s t,
    find_first k _ _,
    find_second k l _ _ _ n,
  );
}

-- An empty file is read as the object `c`.
abbrev pub read_or : Fields ℕ → List ℕ → Option (Fields ℕ)
read_or c [] = some c
read_or c (n ∷ ns) = read_fields (n ∷ ns)

abbrev pub qt_with : Fields ℕ → Qt
qt_with c = record sample_qt { parse_object = read_or c }

read_or_two :
    (c : Fields ℕ) (k l s t : String)
    → read_or c (write_fields (field k (string s) (field l (string t) end)))
      ≡ some (field k (string s) (field l (string t) end))
unfolding write_fields write_text
read_or_two c k l s t = read_two k l s t

pub qt_with_documented : (c : Fields ℕ) → IsDocumented (qt_with c)
unfolding string_eq
qt_with_documented c = record {
  truncate-le = λ d n _ h. ground arith;
  uuid_round = λ u. refl;
  null_uuid_is_null = refl;
  parse-to_compact = λ k l s t n. (
    field k (string s) (field l (string t) end),
    read_or_two c k l s t,
    find_first k _ _,
    find_second k l _ _ _ n,
  );
}
