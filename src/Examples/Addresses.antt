-- ===== src/Examples/Addresses.antt =====
-- The theorems on Expected, and on IpAndPort, where a number is written as that many strokes, and an address is its text.
use Prim.Native.Char.{Char, code}
use text.Mathlib.TextBridge.{to_list, of_list, to_list-of_list}
use pipelinerunner.Base.{
  ℕ, zero, suc, ◌≡◌, ◌<◌, refl, ap, List, [], ◌∷◌, ◌++◌, map, some, String, true, string_eq, ◌==◌,
  ◌=ℕ=◌, arith, if◌then◌else◌, length, replicate, length-replicate, Bool-cases, inl, inr,
}
use pipelinerunner.Base.Results.{ok, err}
use pipelinerunner.Toolkit.Value.{Fields, field, end, string, find, invalid_address_format}
use pipelinerunner.Toolkit.Extractor.{extract_string, extract_json_value}
use pipelinerunner.Toolkit.Expected.{
  Expected, Object, assign, make, held, has_result, has_error, is_result, objects_made,
}
use pipelinerunner.Base.{◌⊎◌, not}
use pipelinerunner.Toolkit.IpAndPort.{
  Addresses, IpAndPort, pos, from_string, to_string, is_valid, extract_host_port,
}
use pipelinerunner.Toolkit.IpAndPort.Text.{
  IsDocumented, from_string-to_string, from_string-to_string_ipv6,
}
use pipelinerunner.Toolkit.IpAndPort.Valid.{extract_host_port-is_valid}
use pipelinerunner.Examples.SampleQt.{sample_qt, of_code}

abbrev colon : Char
colon = of_code 58

abbrev stroke : Char
stroke = of_code 120

-- A character in front of the first part.
abbrev into_first : Char → List (List Char) → List (List Char)
into_first c [] = (c ∷ []) ∷ []
into_first c (p ∷ ps) = (c ∷ p) ∷ ps

unfoldable parts : List Char → List (List Char)
parts [] = [] ∷ []
parts (c ∷ cs) = let rest = parts cs in if code c =ℕ= 58 then [] ∷ rest else into_first c rest

parts-cons : (xs : List Char) → (p : List Char) × (ps : List (List Char)) × (parts xs ≡ p ∷ ps)
unfolding parts
parts-cons [] = ([], [], refl)
parts-cons (x ∷ xs) =
    let (p, ps, e) = parts-cons xs in
    elim (Bool-cases (code x =ℕ= 58)) [
      | inl b ↦ ([], parts xs, rw b refl)
      | inr b ↦ (x ∷ p, ps, rw (b, e) refl)
    ]

into_first-append :
    (x : Char) (xs : List Char) (qs : List (List Char))
    → into_first x (parts xs ++ qs) ≡ into_first x (parts xs) ++ qs
into_first-append x xs qs = let (p, ps, e) = parts-cons xs in rw e refl

parts-append : (xs ys : List Char) → parts (xs ++ colon ∷ ys) ≡ parts xs ++ parts ys
unfolding parts
parts-append [] ys = refl
parts-append (x ∷ xs) ys = elim (Bool-cases (code x =ℕ= 58)) [
  | inl b ↦ rw (b, parts-append xs ys) refl
  | inr b ↦ rw (b, parts-append xs ys) (into_first-append x xs (parts ys))
]

strokes : (n : ℕ) → parts (replicate n stroke) ≡ replicate n stroke ∷ []
unfolding parts replicate
strokes zero = refl
strokes (suc n) = rw (strokes n) refl

abbrev sample_addresses : Addresses sample_qt
sample_addresses = record {
  split = λ s. map of_list (parts (to_list s));
  fill = λ s t. of_list (to_list s ++ colon ∷ to_list t);
  to_int = λ s. some (pos (length (to_list s)));
  number = λ n. of_list (replicate n stroke);
  host_to_string = λ a. a;
  host_eq = λ a b. a == b;
  local_host = "127.0.0.1";
  null_host = "";
}

map_lem : (ps qs : List (List Char)) → map of_list (ps ++ qs) ≡ map of_list ps ++ map of_list qs
map_lem [] qs = refl
map_lem (p ∷ ps) qs = ap (◌∷◌ (of_list p)) (map_lem ps qs)

ipv4_text : to_list "10.0.0.7" ≡ map of_code (49 ∷ 48 ∷ 46 ∷ 48 ∷ 46 ∷ 48 ∷ 46 ∷ 55 ∷ [])
ipv4_text = to_list-of_list (map of_code (49 ∷ 48 ∷ 46 ∷ 48 ∷ 46 ∷ 48 ∷ 46 ∷ 55 ∷ []))

ipv6_text : to_list "::1" ≡ colon ∷ colon ∷ of_code 49 ∷ []
ipv6_text = to_list-of_list (colon ∷ colon ∷ of_code 49 ∷ [])

sample_documented : IsDocumented sample_qt sample_addresses
unfolding parts replicate string_eq
sample_documented = record {
  IsIpv4 = λ a. a ≡ "10.0.0.7";
  IsIpv6 = λ a. a ≡ "::1";
  split-fill = λ s t.
      rw (to_list-of_list (to_list s ++ colon ∷ to_list t), parts-append (to_list s) (to_list t))
        (map_lem (parts (to_list s)) (parts (to_list t)));
  split-number = λ n. rw (to_list-of_list (replicate n stroke), strokes n) refl;
  to_int-number = λ n h. rw (to_list-of_list (replicate n stroke), length-replicate n stroke) refl;
  split-ipv4 = λ a e. rw (e, ipv4_text) refl;
  ipv4_round = λ a e. refl;
  ipv4_not_null = λ a e. rw e refl;
  ipv4_not_named = λ a e. rw e refl;
  split-ipv6 = λ a e. ("", "", "1" ∷ [], rw (e, ipv6_text) refl);
}

abbrev ipv4_address : IpAndPort sample_qt sample_addresses
ipv4_address = record { ip = "10.0.0.7"; port = 3 }

from_string-to_string_example :
    from_string sample_qt sample_addresses (to_string sample_qt sample_addresses ipv4_address)
    ≡ ok ipv4_address
unfolding sample_documented
from_string-to_string_example =
    from_string-to_string sample_qt sample_addresses sample_documented ipv4_address refl
      (omega arith) (omega arith)

from_string-to_string_ipv6_example :
    from_string sample_qt sample_addresses
      (to_string sample_qt sample_addresses (record { ip = "::1"; port = 3 }))
    ≡ err invalid_address_format
unfolding sample_documented
from_string-to_string_ipv6_example =
    from_string-to_string_ipv6 sample_qt sample_addresses sample_documented
      (record { ip = "::1"; port = 3 }) refl

abbrev server : Fields ℕ
server = field "server" (string (to_string sample_qt sample_addresses ipv4_address)) end

server_text :
    extract_string sample_qt server "server"
    ≡ ok (to_string sample_qt sample_addresses ipv4_address)
unfolding extract_string extract_json_value find string_eq
server_text = refl

server_read : extract_host_port sample_qt sample_addresses server "server" ≡ ok ipv4_address
unfolding extract_host_port sample_documented
server_read = rw server_text (
    from_string-to_string sample_qt sample_addresses sample_documented ipv4_address refl
      (omega arith) (omega arith))

extract_host_port-is_valid_example :
    (s : String) × (extract_string sample_qt server "server" ≡ ok s)
    × (from_string sample_qt sample_addresses s ≡ ok ipv4_address)
    × (0 < 3)
    × (3 < 65536)
    × (is_valid sample_qt sample_addresses ipv4_address ≡ true)
unfolding string_eq
extract_host_port-is_valid_example =
    extract_host_port-is_valid sample_qt sample_addresses server "server" ipv4_address refl
      server_read

objects_made_example :
    ((s : ℕ ⊎ String) → held ℕ String (make ℕ String s) ≡ s)
    × ((x : Object ℕ String) → make ℕ String (held ℕ String x) ≡ x)
    × ((x : Object ℕ String)
        → (has_result ℕ String x.0 ≡ is_result ℕ String (held ℕ String x))
          × (has_error ℕ String x.0 ≡ not (is_result ℕ String (held ℕ String x))))
    × ((x : Expected ℕ String) (y : Object ℕ String) → assign ℕ String x (y.0) ≡ y.0)
objects_made_example = objects_made ℕ String
