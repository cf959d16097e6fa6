-- ===== src/Utils/Netmask.antt =====
-- The comparison of netmasks by the length of their texts, and the choice of an interface.
use Prim.Native.String.{String, [] as empty, ◌∷◌ as ◌∷s◌, count}
use Prim.Native.String.count
use Prim.Native.Char.{Char}
use socket_wrapper.Prelude.{
  ℕ, suc, ◌≤◌, ◌≡◌, ◌⊎◌, refl, sym, ap, ◌∙◌, subst, inl, inr, Bool, true, false, List, [], ◌∷◌,
  some, ltb, arith, Bool-cases, ltb→le,
}
use socket_wrapper.BaseTypes.{IpVersion, NetworkInterface}
use socket_wrapper.Exec.{ok}
use socket_wrapper.Utils.{
  IfAddrs, masked, is_loopback, less, get_interface_with_most_specific_netmask,
}
use socket_wrapper.Utils.Interfaces.{all_interfaces, of_version, get_local_network_interfaces_lem}

-- The replacement keeps the length.
count-masked : (s : String) → count (masked s) ≡ count s
unfolding masked
count-masked empty = refl
count-masked (c ∷s s) = count.cons _ (masked s) ∙ ap suc (count-masked s) ∙ sym (count.cons c s)

-- By the comparison everything comes before a loopback interface, also that interface itself; before
-- any other interface come those whose netmask has the longer text.
pub less_lem :
    (a b : NetworkInterface)
    → ((is_loopback b ≡ true) × (less a b ≡ true))
      ⊎ ((is_loopback b ≡ false) × (less a b ≡ ltb (count b.netmask) (count a.netmask)))
unfolding less
less_lem a b = elim (Bool-cases (is_loopback b)) [
  | inl loopback ↦ inl (loopback, rw (loopback, less))
  | inr other ↦ inr (other, rw (other, count-masked a.netmask, count-masked b.netmask, less))
]

module _ {A : Type 0} where
  abbrev pub All : (A → Type 0) → List A → Type 0
  All P [] = Unit {0}
  All P (x ∷ xs) = P x × All P xs

  abbrev pub Occurs : A → List A → Type 0
  Occurs a [] = ⊥
  Occurs a (x ∷ xs) = (a ≡ x) ⊎ Occurs a xs

  All-map : {P Q : A → Type 0} → ((x : A) → P x → Q x) → (l : List A) → All P l → All Q l
  All-map f [] h = tt
  All-map f (x ∷ l) h = (f x h.0, All-map f l h.1)

  All-Occurs : (l : List A) → All (λ x. Occurs x l) l
  All-Occurs [] = tt
  All-Occurs (x ∷ l) = (
    inl refl,
    All-map {P = λ y. Occurs y l} {Q = λ y. Occurs y (x ∷ l)} (λ y. inr) l (All-Occurs l),
  )

-- A strict weak order on the elements that `P` holds of.
pub record IsStrictWeak {A : Type 0} (P : A → Type 0) (less : A → A → Bool) : Type 0 where
  pub irreflexive : (x : A) → P x → less x x ≡ false
  pub transitive :
      (x y z : A) → P x → P y → P z → less x y ≡ true → less y z ≡ true → less x z ≡ true
  pub not_less_trans :
      (x y z : A) → P x → P y → P z → less x y ≡ false → less y z ≡ false → less x z ≡ false

-- What the standard says of std::sort: the result has the same elements, and if the comparison is a
-- strict weak order on them, no element is less than the first one.
pub record Sorts {A : Type 0} (sort : (A → A → Bool) → List A → List A) : Type 1 where
  pub keeps : (less : A → A → Bool) (l : List A) (P : A → Type 0) → All P l → All P (sort less l)
  pub some_front :
      (less : A → A → Bool) (x : A) (l : List A)
      → (first : A) × (rest : List A) × (sort less (x ∷ l) ≡ first ∷ rest)
  pub least :
      (less : A → A → Bool) (P : A → Type 0)
      → IsStrictWeak P less
      → (l : List A) (first : A) (rest : List A) → All P l
      → sort less l ≡ first ∷ rest
      → All (λ x. less x first ≡ false) l

abbrev pub IsRemote : NetworkInterface → Type 0
IsRemote i = is_loopback i ≡ false

-- Among interfaces that are not loopback ones the comparison is by length.
less_remote :
    (a b : NetworkInterface) → IsRemote b → less a b ≡ ltb (count b.netmask) (count a.netmask)
less_remote a b remote = elim (less_lem a b) [
  | inl (loopback, e) ↦ absurd (ground (arith, loopback, remote))
  | inr (other, e) ↦ e
]

less-IsStrictWeak : IsStrictWeak IsRemote less
less-IsStrictWeak = record {
  irreflexive = λ x hx. less_remote x x hx ∙ ground arith;
  transitive = λ x y z hx hy hz p q.
      less_remote x z hz
      ∙ ground (arith, sym (less_remote x y hy) ∙ p, sym (less_remote y z hz) ∙ q);
  not_less_trans = λ x y z hx hy hz p q.
      less_remote x z hz
      ∙ ground (arith, sym (less_remote x y hy) ∙ p, sym (less_remote y z hz) ∙ q);
}

module _ (ntop : IpVersion → List ℕ → List Char → List Char)
    (sort : (NetworkInterface → NetworkInterface → Bool)
      → List NetworkInterface
      → List NetworkInterface)
    (sorts : Sorts sort) where
  -- If the interfaces of the version are not none and none of them is a loopback one,
  -- `getInterfaceWithMostSpecificNetmask` returns one of them, and no other has a netmask with a longer
  -- text.
  pub most_specific :
      (version : IpVersion) (list : List IfAddrs) (i : NetworkInterface)
      (interfaces : List NetworkInterface)
      → all_interfaces ntop (of_version ntop version list) ≡ some (i ∷ interfaces)
      → All IsRemote (i ∷ interfaces)
      → (best : NetworkInterface) × (get_interface_with_most_specific_netmask ntop sort version list
          ≡ (ok (some best), list))
        × Occurs best (i ∷ interfaces)
        × All (λ j. count j.netmask ≤ count best.netmask) (i ∷ interfaces)
  unfolding get_interface_with_most_specific_netmask
  most_specific version list i interfaces found remote =
      let (best, rest, e) = sorts.some_front less i interfaces in
      (
        best,
        rw
            (
              get_local_network_interfaces_lem ntop version list,
              found,
              e,
              get_interface_with_most_specific_netmask,
            )
            refl,
        (subst (All (λ x. Occurs x (i ∷ interfaces))) e (
            sorts.keeps less (i ∷ interfaces) (λ x. Occurs x (i ∷ interfaces))
              (All-Occurs (i ∷ interfaces)))).0,
        (let best_remote =
              (subst (All IsRemote) e (sorts.keeps less (i ∷ interfaces) IsRemote remote)).0 in
            All-map {P = λ x. less x best ≡ false} {Q = λ j. count j.netmask ≤ count best.netmask}
              (λ j h. ltb→le _ _ (sym (less_remote j best best_remote) ∙ h)) (i ∷ interfaces)
              (sorts.least less IsRemote less-IsStrictWeak (i ∷ interfaces) best rest remote e)),
      )
