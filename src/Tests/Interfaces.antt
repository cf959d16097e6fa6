-- ===== src/Tests/Interfaces.antt =====
-- The theorems on network interfaces, with an insertion sort for std::sort.
use Prim.Native.Char.{Char}
use Prim.Native.String.{String, [] as empty, ◌∷◌ as ◌∷s◌, count}
use socket_wrapper.Prelude.Memory.{blit}
use socket_wrapper.Prelude.{
  ℕ, ◌≡◌, ◌≤◌, refl, subst, inl, inr, Bool, true, false, List, [], ◌∷◌, some, none, ltb, Bool-cases,
  if◌then◌else◌,
}
use socket_wrapper.BaseTypes.{IpVersion, ipv4, NetworkInterface}
use socket_wrapper.Exec.{ok}
use socket_wrapper.Utils.{
  SockAddr, IfAddrs, get_local_network_interfaces, get_interface_with_most_specific_netmask,
}
use socket_wrapper.Utils.Interfaces.{get_local_network_interfaces_lem}
use socket_wrapper.Utils.Netmask.{All, Occurs, IsStrictWeak, Sorts, most_specific}

module _ {A : Type 0} (before : A → A → Bool) where
  abbrev insert : A → List A → List A
  insert x [] = x ∷ []
  insert x (y ∷ ys) = let rest = insert x ys in if before y x then y ∷ rest else x ∷ y ∷ ys

  abbrev sort : List A → List A
  sort [] = []
  sort (x ∷ xs) = insert x (sort xs)

  insert-All : (P : A → Type 0) (x : A) (l : List A) → P x → All P l → All P (insert x l)
  insert-All P x [] p h = (p, tt)
  insert-All P x (y ∷ l) p (q, h) = elim (Bool-cases (before y x)) [
    | inl e ↦ rw e (q, insert-All P x l p h)
    | inr e ↦ rw e (p, (q, h))
  ]

  sort_keeps : (l : List A) (P : A → Type 0) → All P l → All P (sort l)
  sort_keeps [] P h = tt
  sort_keeps (x ∷ l) P (p, h) = insert-All P x (sort l) p (sort_keeps l P h)

  insert_front : (x : A) (l : List A) → (first : A) × (rest : List A) × (insert x l ≡ first ∷ rest)
  insert_front x [] = (x, [], refl)
  insert_front x (y ∷ l) = elim (Bool-cases (before y x)) [
    | inl e ↦ (y, insert x l, rw e refl)
    | inr e ↦ (x, y ∷ l, rw e refl)
  ]

  -- What is not before `y` is not before an `x` that `y` is not before.
  after-All :
      (P : A → Type 0) (x y : A) (l : List A)
      → IsStrictWeak P before
      → P x
      → P y
      → before y x ≡ false
      → All P l
      → All (λ z. before z y ≡ false) l
      → All (λ z. before z x ≡ false) l
  after-All P x y [] order px py e h k = tt
  after-All P x y (z ∷ l) order px py e (pz, h) (ez, k) =
      (order.not_less_trans z y x pz py px ez e, after-All P x y l order px py e h k)

  sort_least :
      (P : A → Type 0) (x : A) (l : List A)
      → IsStrictWeak P before
      → All P (x ∷ l)
      → (first : A) × (rest : List A) × (sort (x ∷ l) ≡ first ∷ rest)
        × P first
        × All (λ z. before z first ≡ false) (x ∷ l)
  sort_least P x [] order (px, h) = (x, [], refl, px, (order.irreflexive x px, tt))
  sort_least P x (y ∷ l) order (px, h) =
      let (f, rest, e, pf, k) = sort_least P y l order h in
      elim (Bool-cases (before f x)) [
        | inl earlier ↦ (f, insert x rest, rw (e, earlier) refl, pf, (asymmetric f pf earlier, k))
        | inr later ↦ (
          x,
          f ∷ rest,
          rw (e, later) refl,
          px,
          (order.irreflexive x px, after-All P x f (y ∷ l) order px pf later h k),
        )
      ]
    where
      asymmetric : (f : A) → P f → before f x ≡ true → before x f ≡ false
      asymmetric f pf earlier = elim (Bool-cases (before x f)) [
        | inr fine ↦ fine
        | inl back ↦
            absurd (cc (order.transitive f x f pf px pf earlier back, order.irreflexive f pf))
      ]

sort_front :
    {A : Type 0} (before : A → A → Bool) (P : A → Type 0)
    → IsStrictWeak P before
    → (l : List A) (first : A) (rest : List A) → All P l
    → sort before l ≡ first ∷ rest
    → All (λ x. before x first ≡ false) l
sort_front before P order [] first rest h e = tt
sort_front before P order (x ∷ l) first rest h e =
    let (f, others, e', pf, k) = sort_least before P x l order h in
    let same : f ≡ first = cc in subst (λ y. All (λ z. before z y ≡ false) (x ∷ l)) same k

sort-Sorts : Sorts {A = NetworkInterface} sort
sort-Sorts = record {
  keeps = λ before l P h. sort_keeps before l P h;
  some_front = λ before x l. insert_front before x (sort before l);
  least = λ before P order l first rest h e. sort_front before P order l first rest h e;
}

abbrev last : ℕ → List ℕ → ℕ
last a [] = a
last a (b ∷ bytes) = last b bytes

abbrev chars : String → List Char
chars empty = []
chars (c ∷s s) = c ∷ chars s

-- It writes the text to the beginning of the array, whose next char stays NUL.
abbrev ntop : IpVersion → List ℕ → List Char → List Char
ntop v [] array = array
ntop v (a ∷ bytes) array =
    let text =
      if ltb a 128
      then "10.0.0.1"
      else if ltb 0 (last a bytes)
      then "255.255.255.255"
      else "255.0.0.0" in
    blit 0 (chars text) array

abbrev address : ℕ → ℕ → SockAddr
address a b = record { sa_family = 2; bytes = a ∷ b ∷ [] }

abbrev entry : String → ℕ → IfAddrs
entry name b = record {
  ifa_name = name;
  ifa_addr = some (address 10 1);
  ifa_netmask = some (address 255 b);
  ifa_broadaddr = none;
}

abbrev list : List IfAddrs
list = entry "eth0" 0 ∷ entry "eth1" 255 ∷ []

abbrev found : String → String → NetworkInterface
found name mask = record {
  name = name;
  ip_address = "10.0.0.1";
  netmask = mask;
  broadcast_address = "";
}

get_local_network_interfaces_lem_example :
    get_local_network_interfaces ntop ipv4 list
    ≡ (ok (found "eth0" "255.0.0.0" ∷ found "eth1" "255.255.255.255" ∷ []), list)
get_local_network_interfaces_lem_example = get_local_network_interfaces_lem ntop ipv4 list

most_specific_example :
    (best : NetworkInterface) × (get_interface_with_most_specific_netmask ntop sort ipv4 list
      ≡ (ok (some best), list))
    × Occurs best (found "eth0" "255.0.0.0" ∷ found "eth1" "255.255.255.255" ∷ [])
    × All
        (λ j. count j.netmask ≤ count best.netmask)
        (found "eth0" "255.0.0.0" ∷ found "eth1" "255.255.255.255" ∷ [])
most_specific_example =
    most_specific ntop sort sort-Sorts ipv4 list (found "eth0" "255.0.0.0")
      (found "eth1" "255.255.255.255" ∷ []) refl (refl, (refl, tt))
