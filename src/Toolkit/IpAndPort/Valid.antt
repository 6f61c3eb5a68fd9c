-- ===== src/Toolkit/IpAndPort/Valid.antt =====
-- ipandport.h: what a text that is read gives.
use pipelinerunner.Base.{
  ℕ, ◌%◌, ◌^◌, ◌<◌, ◌≡◌, refl, true, false, ◌||◌, List, [], ◌∷◌, Option, none, some, String, ltb,
  ◌=ℕ=◌, ◌==◌, string_eq, arith, inl, inr, Bool-cases,
}
use pipelinerunner.Base.Results.{Result, ok, >>=-eq-ok}
use pipelinerunner.Toolkit.Value.{Error, Fields}
use pipelinerunner.Toolkit.Extractor.{extract_string}
use pipelinerunner.Qt.{Qt}
use pipelinerunner.Toolkit.IpAndPort.{
  Addresses, IpAndPort, ℤ, pos, negsuc, from_string, is_valid, with_port, with_host, of_parts,
  extract_host_port,
}

module _ (qt : Qt) (addresses : Addresses qt) where
  -- A port that fits, and an address that is not null.
  pub record IsUsable (a : IpAndPort qt addresses) : Type 0 where
    pub low : 0 < a.port
    pub high : a.port < 65536
    pub host : qt.host_is_null a.ip ≡ false

  of_host :
      (h : qt.HostAddress) (n : ℕ) (a : IpAndPort qt addresses)
      → qt.host_is_null h ≡ false
      → 0 < n
      → n < 65536
      → ◌≡◌ {A = Result Error (IpAndPort qt addresses)}
          (ok (record { ip = h; port = n % 2 ^ 16 }))
          (ok a)
      → IsUsable a
  of_host h n a nonnull low high e =
      let ip : h ≡ a.ip = cc in
      let same : n % 2 ^ 16 ≡ a.port = cc in
      record { low = omega arith; high = omega arith; host = rw ip at nonnull }

  with_host-IsUsable :
      (ip : String) (n : ℕ) (a : IpAndPort qt addresses)
      → qt.host_is_null addresses.local_host ≡ false
      → 0 < n
      → n < 65536
      → with_host qt addresses ip n ≡ ok a
      → IsUsable a
  unfolding with_host
  with_host-IsUsable ip n a local low high e = elim (Bool-cases (ip == "localhost")) [
    | inl named ↦ of_host addresses.local_host n a local low high (rw named at e)
    | inr other ↦ elim (Bool-cases (qt.host_is_null (qt.host_of_string ip))) [
      | inl null ↦ cc (rw (other, null) at e)
      | inr nonnull ↦ of_host (qt.host_of_string ip) n a nonnull low high (rw (other, nonnull) at e)
    ]
  ]

  with_port-IsUsable :
      (ip : String) (n : Option ℤ) (a : IpAndPort qt addresses)
      → qt.host_is_null addresses.local_host ≡ false
      → with_port qt addresses ip n ≡ ok a
      → IsUsable a
  unfolding with_port
  with_port-IsUsable ip none a local e = cc
  with_port-IsUsable ip (some (negsuc n)) a local e = cc
  with_port-IsUsable ip (some (pos n)) a local e = elim (Bool-cases ((n =ℕ= 0) || ltb 65535 n)) [
    | inl out ↦ cc (rw out at e)
    | inr within ↦ with_host-IsUsable ip n a local (ground arith) (ground arith) (rw within at e)
  ]

  of_parts-IsUsable :
      (parts : List String) (a : IpAndPort qt addresses)
      → qt.host_is_null addresses.local_host ≡ false
      → of_parts qt addresses parts ≡ ok a
      → IsUsable a
  unfolding of_parts
  of_parts-IsUsable [] a local e = cc
  of_parts-IsUsable (ip ∷ []) a local e = cc
  of_parts-IsUsable (ip ∷ port ∷ []) a local e =
      with_port-IsUsable ip (addresses.to_int port) a local e
  of_parts-IsUsable (ip ∷ port ∷ p ∷ ps) a local e = cc

  -- As QHostAddress::LocalHost is not null: an address and a port that `extractHostPort` gives come from
  -- a text that stands under the key. The port is from 1 to 65535, the host is not null, and `isValid`
  -- holds.
  pub extract_host_port-is_valid :
      (obj : Fields qt.Double) (key : String) (a : IpAndPort qt addresses)
      → qt.host_is_null addresses.local_host ≡ false
      → extract_host_port qt addresses obj key ≡ ok a
      → (s : String) × (extract_string qt obj key ≡ ok s)
        × (from_string qt addresses s ≡ ok a)
        × (0 < a.port)
        × (a.port < 65536)
        × (is_valid qt addresses a ≡ true)
  unfolding extract_host_port from_string is_valid
  extract_host_port-is_valid obj key a local e =
      let (s, found, read) = >>=-eq-ok (extract_string qt obj key) (from_string qt addresses) e in
      let u = of_parts-IsUsable (addresses.split s) a local read in
      let port : (a.port =ℕ= 0) ≡ false = ground (arith, u.low) in
      (s, found, read, u.low, u.high, rw (port, u.host) refl)
