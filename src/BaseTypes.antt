-- ===== src/BaseTypes.antt =====
-- include/socket_wrapper/BaseTypes.h and src/BaseTypes.cpp.
use Prim.Native.String.{String}
use text.Mathlib.Text.{◌==◌ as ◌=s=◌}
use text.Mathlib.TextEquality.{eq_iff}
use socket_wrapper.Prelude.{◌≡◌, ◌≢◌, ◌⊎◌, inl, inr, arith, Bool-cases, if◌then◌else◌}
use socket_wrapper.Exception.{Exception, invalid_argument}

pub data IpVersion : Type 0 where
  ipv4 ipv6 : IpVersion

pub record NetworkInterface : Type 0 where
  pub name : String
  pub ip_address : String
  pub netmask : String
  pub broadcast_address : String

-- The map `getName`.
pub get_name : IpVersion → String
get_name ipv6 = "IPv6"
get_name ipv4 = "IPv4"

-- `IpVersionfromString`: a version, or the exception that it throws.
pub ip_version_from_string : String → IpVersion ⊎ Exception
ip_version_from_string v =
    if v =s= "IPv4" then inl ipv4 else if v =s= "IPv6" then inl ipv6 else inr invalid_argument

-- Every text is a version's name and is read as that version, or it is neither name and
-- invalid_argument is thrown.
ip_version_from_string-get_name :
    (s : String)
    → ((v : IpVersion) × (s ≡ get_name v) × (ip_version_from_string s ≡ inl v))
      ⊎ ((s ≢ get_name ipv4)
          × (s ≢ get_name ipv6)
          × (ip_version_from_string s ≡ inr invalid_argument))
unfolding ip_version_from_string get_name
ip_version_from_string-get_name s = elim (Bool-cases (s =s= "IPv4")) [
  | inl four ↦ inl (ipv4, ground (arith, eq_iff s "IPv4"), rw four)
  | inr not_four ↦ elim (Bool-cases (s =s= "IPv6")) [
    | inl six ↦ inl (ipv6, ground (arith, eq_iff s "IPv6"), rw (not_four, six))
    | inr not_six ↦
        inr
          (ground (arith, eq_iff s "IPv4"), ground (arith, eq_iff s "IPv6"), rw (not_four, not_six))
  ]
]
