-- ===== src/Utils/Interfaces.antt =====
-- getLocalNetworkInterfaces, and a reference of it by a filter and a map.
use Prim.Native.Char.{Char}
use Prim.Native.String.{String}
use mathlib.Core.Path.{fun_ext}
use socket_wrapper.Prelude.{
  ℕ, ◌≡◌, refl, sym, ap, ◌∙◌, List, [], ◌∷◌, ◌++◌, Option, none, some, append_assoc, append-nil,
  ◌==◌, if◌then◌else◌, Bool-cases, inl, inr,
}
use socket_wrapper.BaseTypes.{IpVersion, ipv4, ipv6, NetworkInterface}
use socket_wrapper.Exception.{runtime_error}
use socket_wrapper.Exec.{Outcome, ok, throws, Exec, pure, continue, ◌>>=◌}
use socket_wrapper.Utils.{
  SockAddr, IfAddrs, family, is_of_version, get_ip_v4_address_of, get_ip_v6_address_of,
  get_ip_address_of, found_interface, collect, get_local_network_interfaces,
}

module _ (ntop : IpVersion → List ℕ → List Char → List Char) where
  -- The text of an address, if there is one.
  abbrev text_of : Option SockAddr → Option String
  text_of none = some ""
  text_of (some address) =
      if address.sa_family == family ipv6
      then some (get_ip_v6_address_of ntop address.bytes)
      else if address.sa_family == family ipv4
      then some (get_ip_v4_address_of ntop address.bytes)
      else none

  abbrev interface :
      String → Option String → Option String → Option String → Option NetworkInterface
  interface name (some ip) (some mask) (some broadcast) =
      some (record { name = name; ip_address = ip; netmask = mask; broadcast_address = broadcast })
  interface name _ _ _ = none

  -- The interface that an entry describes, if its addresses are of the two families.
  abbrev pub interface_of : IfAddrs → Option NetworkInterface
  interface_of entry =
      interface entry.ifa_name (text_of entry.ifa_addr) (text_of entry.ifa_netmask)
        (text_of entry.ifa_broadaddr)

  abbrev pub of_version : IpVersion → List IfAddrs → List IfAddrs
  of_version version [] = []
  of_version version (entry ∷ entries) =
      let rest = of_version version entries in
      if is_of_version version entry.ifa_addr then entry ∷ rest else rest

  abbrev pub cons_all :
      Option NetworkInterface → Option (List NetworkInterface) → Option (List NetworkInterface)
  cons_all (some i) (some interfaces) = some (i ∷ interfaces)
  cons_all _ _ = none

  -- All interfaces, if there is none that is missing.
  abbrev pub all_interfaces : List IfAddrs → Option (List NetworkInterface)
  all_interfaces [] = some []
  all_interfaces (entry ∷ entries) = cons_all (interface_of entry) (all_interfaces entries)

  abbrev pub or_runtime_error : {A : Type 0} → Option A → Outcome A
  or_runtime_error none = throws runtime_error
  or_runtime_error (some a) = ok a

  get_ip_address_of_lem :
      {S : Type 0} (address : Option SockAddr) (s : S)
      → get_ip_address_of ntop address s ≡ (or_runtime_error (text_of address), s)
  unfolding get_ip_address_of
  get_ip_address_of_lem none s = refl
  get_ip_address_of_lem (some address) s = elim (Bool-cases (address.sa_family == family ipv6)) [
    | inl six ↦ rw six
    | inr not_six ↦ elim (Bool-cases (address.sa_family == family ipv4)) [
      | inl four ↦ rw (not_six, four)
      | inr not_four ↦ rw (not_six, not_four)
    ]
  ]

  joined :
      {S : Type 0} (name : String) (ip mask broadcast : Option String) (s : S)
      → continue
          (or_runtime_error ip)
          (λ i. (λ t. (or_runtime_error mask, t)) >>= λ m.
            (λ t. (or_runtime_error broadcast, t)) >>= λ b.
            pure (record { name = name; ip_address = i; netmask = m; broadcast_address = b }))
          s
        ≡ (or_runtime_error (interface name ip mask broadcast), s)
  joined name none mask broadcast s = refl
  joined name (some ip) none broadcast s = refl
  joined name (some ip) (some mask) none s = refl
  joined name (some ip) (some mask) (some broadcast) s = refl

  found_interface_lem :
      {S : Type 0} (entry : IfAddrs) (s : S)
      → found_interface ntop entry s ≡ (or_runtime_error (interface_of entry), s)
  unfolding found_interface
  found_interface_lem {S} entry s =
      rw
        (
          fun_ext (get_ip_address_of_lem {S = S} entry.ifa_addr),
          fun_ext (get_ip_address_of_lem {S = S} entry.ifa_netmask),
          fun_ext (get_ip_address_of_lem {S = S} entry.ifa_broadaddr),
          found_interface,
        )
        (joined entry.ifa_name (text_of entry.ifa_addr) (text_of entry.ifa_netmask)
          (text_of entry.ifa_broadaddr) s)

  abbrev prepend :
      List NetworkInterface → Option (List NetworkInterface) → Option (List NetworkInterface)
  prepend found none = none
  prepend found (some interfaces) = some (found ++ interfaces)

  prepend-cons_all :
      (found : List NetworkInterface) (i : NetworkInterface)
      (later : Option (List NetworkInterface))
      → prepend (found ++ i ∷ []) later ≡ prepend found (cons_all (some i) later)
  prepend-cons_all found i none = refl
  prepend-cons_all found i (some interfaces) = ap some (append_assoc found (i ∷ []) interfaces)

  after_found :
      {S : Type 0} (found : List NetworkInterface) (i : Option NetworkInterface)
      (later : Option (List NetworkInterface))
      (next : NetworkInterface → Exec S (List NetworkInterface)) (s : S)
      → ((j : NetworkInterface)
          → next j s ≡ (or_runtime_error (prepend (found ++ j ∷ []) later), s))
      → continue (or_runtime_error i) next s
        ≡ (or_runtime_error (prepend found (cons_all i later)), s)
  after_found found none later next s h = refl
  after_found found (some i) later next s h =
      h i ∙ ap (λ l. (or_runtime_error l, s)) (prepend-cons_all found i later)

  collect_lem :
      {S : Type 0} (version : IpVersion) (entries : List IfAddrs) (found : List NetworkInterface)
      (s : S)
      → collect ntop version entries found s
        ≡ (or_runtime_error (prepend found (all_interfaces (of_version version entries))), s)
  unfolding collect
  collect_lem version [] found s = ap (λ l. (ok l, s)) (sym (append-nil found))
  collect_lem {S} version (entry ∷ entries) found s =
      elim (Bool-cases (is_of_version version entry.ifa_addr)) [
        | inr other ↦ rw (other, collect) (collect_lem version entries found s)
        | inl same ↦
            rw (same, found_interface_lem entry s, collect)
              (after_found found (interface_of entry) (all_interfaces (of_version version entries))
                (λ j. collect ntop version entries (found ++ j ∷ [])) s
                (λ j. collect_lem version entries (found ++ j ∷ []) s))
      ]

  -- `getLocalNetworkInterfaces` returns an interface for each entry of the list that has an address of
  -- the version, in the order of the list, with the texts of its address, netmask and broadcast
  -- address, of which a missing one is empty. If one of these is of a family that is neither IPv4 nor
  -- IPv6, it throws runtime_error.
  pub get_local_network_interfaces_lem :
      (version : IpVersion) (list : List IfAddrs)
      → get_local_network_interfaces ntop version list
        ≡ (or_runtime_error (all_interfaces (of_version version list)), list)
  unfolding get_local_network_interfaces
  get_local_network_interfaces_lem version list =
      collect_lem version list [] list
      ∙ ap (λ l. (or_runtime_error l, list))
          (unprepended (all_interfaces (of_version version list)))
    where
      unprepended : (l : Option (List NetworkInterface)) → prepend [] l ≡ l
      unprepended none = refl
      unprepended (some interfaces) = refl
