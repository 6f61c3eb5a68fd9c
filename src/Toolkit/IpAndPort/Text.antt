-- ===== src/Toolkit/IpAndPort/Text.antt =====
-- ipandport.h: an address written as a text and read back.
use pipelinerunner.Base.{
  ℕ, ◌%◌, ◌^◌, ◌<◌, ◌≡◌, refl, ◌∙◌, false, List, [], ◌∷◌, ◌++◌, some, String, ltb, ◌=ℕ=◌, ◌==◌,
  string_eq, arith,
}
use pipelinerunner.Base.Results.{ok, err}
use pipelinerunner.Toolkit.Value.{invalid_address_format}
use pipelinerunner.Qt.{Qt}
use pipelinerunner.Toolkit.IpAndPort.{Addresses, IpAndPort, pos, from_string, to_string}

-- What Qt's documentation says of them; the addresses of IPv4 and of IPv6 are predicates.
pub record IsDocumented (qt : Qt) (addresses : Addresses qt) : Type 1 where
  pub IsIpv4 : qt.HostAddress → Type 0
  pub IsIpv6 : qt.HostAddress → Type 0
  pub split-fill :
      (s t : String) → addresses.split (addresses.fill s t) ≡ addresses.split s ++ addresses.split t
  -- A number has no colon, and an `int` that is not negative is read back.
  pub split-number : (n : ℕ) → addresses.split (addresses.number n) ≡ addresses.number n ∷ []
  pub to_int-number : (n : ℕ) → n < 2 ^ 31 → addresses.to_int (addresses.number n) ≡ some (pos n)
  -- The text of an IPv4 address has no colon and denotes it; the text of an IPv6 address has colons.
  pub split-ipv4 :
      (a : qt.HostAddress)
      → IsIpv4 a
      → addresses.split (addresses.host_to_string a) ≡ addresses.host_to_string a ∷ []
  pub ipv4_round :
      (a : qt.HostAddress) → IsIpv4 a → qt.host_of_string (addresses.host_to_string a) ≡ a
  pub ipv4_not_null : (a : qt.HostAddress) → IsIpv4 a → qt.host_is_null a ≡ false
  pub ipv4_not_named :
      (a : qt.HostAddress) → IsIpv4 a → (addresses.host_to_string a == "localhost") ≡ false
  pub split-ipv6 :
      (a : qt.HostAddress)
      → IsIpv6 a
      → (s t : String) × (rest : List String) × (addresses.split (addresses.host_to_string a)
          ≡ s ∷ t ∷ rest)

module _ (qt : Qt) (addresses : Addresses qt) where
  port_fits :
      (n : ℕ) → 0 < n → n < 65536 → (((n =ℕ= 0) ≡ false) × (ltb 65535 n ≡ false)) × (n % 2 ^ 16 ≡ n)
  port_fits n p q = ((ground arith, ground arith), omega arith)

  -- An IPv4 address with a port from 1 to 65535 is written as a text that is read as just this address
  -- and port.
  pub from_string-to_string :
      (doc : IsDocumented qt addresses) (a : IpAndPort qt addresses)
      → doc.IsIpv4 a.ip
      → 0 < a.port
      → a.port < 65536
      → from_string qt addresses (to_string qt addresses a) ≡ ok a
  unfolding from_string to_string
  from_string-to_string doc a v4 low high =
      let ((nonzero, small), same) = port_fits a.port low high in
      rw
        (
          doc.split-fill (addresses.host_to_string a.ip) (addresses.number a.port),
          doc.split-ipv4 a.ip v4,
          doc.split-number a.port,
          doc.to_int-number a.port (omega arith),
          from_string,
          nonzero,
          small,
          doc.ipv4_not_named a.ip v4,
          doc.ipv4_round a.ip v4,
          doc.ipv4_not_null a.ip v4,
          same,
        )
        refl

  too_many :
      (text s t p : String) (rest : List String)
      → addresses.split text ≡ s ∷ t ∷ (rest ++ (p ∷ []))
      → from_string qt addresses text ≡ err invalid_address_format
  unfolding from_string
  too_many text s t p [] e = rw (e, from_string) refl
  too_many text s t p (r ∷ rs) e = rw (e, from_string) refl

  -- The text of an IPv6 address with any port is refused for its colons: it cannot be read.
  pub from_string-to_string_ipv6 :
      (doc : IsDocumented qt addresses) (a : IpAndPort qt addresses)
      → doc.IsIpv6 a.ip
      → from_string qt addresses (to_string qt addresses a) ≡ err invalid_address_format
  unfolding to_string
  from_string-to_string_ipv6 doc a v6 =
      let (s, t, rest, e) = doc.split-ipv6 a.ip v6 in
      too_many (to_string qt addresses a) s t (addresses.number a.port) rest (
        doc.split-fill (addresses.host_to_string a.ip) (addresses.number a.port)
        ∙ rw (e, doc.split-number a.port) refl)
