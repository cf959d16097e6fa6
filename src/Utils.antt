-- ===== src/Utils.antt =====
-- include/socket_wrapper/Utils.h and src/Utils.cpp. The state is the list that getifaddrs makes, which
-- is taken to succeed.
pub mod Interfaces
pub mod Netmask
use Prim.Native.Char.{Char, code, nul}
use Prim.Native.String.{String, [] as empty, ◌∷◌ as ◌∷s◌, count}
use text.Mathlib.Text.{◌==◌ as ◌=s=◌}
use socket_wrapper.Prelude.{
  ℕ, Bool, true, false, ◌||◌, List, [], ◌∷◌, ◌++◌, Option, none, some, ltb, replicate, ◌==◌,
  if◌then◌else◌,
}
use socket_wrapper.BaseTypes.{IpVersion, ipv4, ipv6, NetworkInterface}
use socket_wrapper.Exception.{runtime_error}
use socket_wrapper.Exec.{Outcome, ok, throws, Exec, pure, raise, gets, continue, ◌>>=◌}

-- `struct sockaddr`: the family, and the bytes of sin_addr or sin6_addr.
pub record SockAddr : Type 0 where
  pub sa_family : ℕ
  pub bytes : List ℕ

-- `struct ifaddrs`; `none` is a null pointer.
pub record IfAddrs : Type 0 where
  pub ifa_name : String
  pub ifa_addr : Option SockAddr
  pub ifa_netmask : Option SockAddr
  pub ifa_broadaddr : Option SockAddr

-- AF_INET and AF_INET6, as on Linux.
abbrev pub family : IpVersion → ℕ
family ipv4 = 2
family ipv6 = 10

-- The test on an element of the list.
abbrev pub is_of_version : IpVersion → Option SockAddr → Bool
is_of_version version none = false
is_of_version version (some address) = address.sa_family == family version

-- `std::regex_replace(netmask, ":|.|0", "x")`: every character but a line terminator, which `.` does
-- not match, becomes an x.
pub masked : String → String
masked empty = empty
masked (c ∷s s) =
    (if code c == 10 || code c == 13 || code c == 8232 || code c == 8233 then c else "x")
    ∷s masked s

abbrev pub is_loopback : NetworkInterface → Bool
is_loopback i = (i.ip_address =s= "::1") || (i.ip_address =s= "127.0.0.1")

-- The comparison that is given to std::sort.
unfoldable pub less : NetworkInterface → NetworkInterface → Bool
unfolding masked
less a b = is_loopback b || ltb (count (masked b.netmask)) (count (masked a.netmask))

-- The std::string that an array of chars makes: what stands before the first NUL.
abbrev c_string : List Char → String
c_string [] = empty
c_string (c ∷ array) = let rest = c_string array in if code c == 0 then empty else c ∷s rest

-- inet_ntop: from the bytes of an address and the array to write to, what the array is then.
module _ (ntop : IpVersion → List ℕ → List Char → List Char) where
  -- The array has INET6_ADDRSTRLEN chars.
  abbrev pub get_ip_v6_address_of : List ℕ → String
  get_ip_v6_address_of bytes = c_string (ntop ipv6 bytes (replicate 46 nul))

  -- The array has INET_ADDRSTRLEN chars.
  abbrev pub get_ip_v4_address_of : List ℕ → String
  get_ip_v4_address_of bytes = c_string (ntop ipv4 bytes (replicate 16 nul))

  unfoldable pub get_ip_address_of : {S : Type 0} → Option SockAddr → Exec S String
  get_ip_address_of none = pure ""
  get_ip_address_of (some address) =
      if address.sa_family == family ipv6
      then pure (get_ip_v6_address_of address.bytes)
      else if address.sa_family == family ipv4
      then pure (get_ip_v4_address_of address.bytes)
      else raise runtime_error

  -- The initialiser of `found_interface`.
  unfoldable pub found_interface : {S : Type 0} → IfAddrs → Exec S NetworkInterface
  unfolding get_ip_address_of
  found_interface entry = do
    ip_address ← get_ip_address_of entry.ifa_addr
    netmask ← get_ip_address_of entry.ifa_netmask
    broadcast_address ← get_ip_address_of entry.ifa_broadaddr
    pure (record {
      name = entry.ifa_name;
      ip_address = ip_address;
      netmask = netmask;
      broadcast_address = broadcast_address;
    })

  -- The loop of `getLocalNetworkInterfaces`.
  unfoldable pub collect :
      {S : Type 0}
      → IpVersion
      → List IfAddrs
      → List NetworkInterface
      → Exec S (List NetworkInterface)
  collect version [] found_addresses = pure found_addresses
  collect version (entry ∷ entries) found_addresses = elim (is_of_version version entry.ifa_addr) [
    | true ↦ (do
      found ← found_interface entry
      collect version entries (found_addresses ++ found ∷ []))
    | false ↦ collect version entries found_addresses
  ]

  unfoldable pub get_local_network_interfaces :
      IpVersion → Exec (List IfAddrs) (List NetworkInterface)
  unfolding collect
  get_local_network_interfaces version = do
    entries ← gets (λ list. list)
    collect version entries []

  -- `front`, which is undefined on an empty vector: `none`.
  abbrev pub front : List NetworkInterface → Option NetworkInterface
  front [] = none
  front (i ∷ interfaces) = some i

  -- `getInterfaceWithMostSpecificNetmask`, with std::sort.
  unfoldable pub get_interface_with_most_specific_netmask :
      ((NetworkInterface → NetworkInterface → Bool) → List NetworkInterface → List NetworkInterface)
      → IpVersion
      → Exec (List IfAddrs) (Option NetworkInterface)
  get_interface_with_most_specific_netmask sort required_ip_version = do
    interfaces ← get_local_network_interfaces required_ip_version
    pure (front (sort less interfaces))
