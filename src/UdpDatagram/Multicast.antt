-- ===== src/UdpDatagram/Multicast.antt =====
-- UdpDatagram::subscribeToMulticast.
use Prim.Native.String.{String}
use socket_wrapper.Prelude.{
  ◌<◌, ◌≤◌, ◌*◌, ◌^◌, ◌≡◌, ◌⊎◌, refl, inl, inr, arith, leb, ltb, Bool-cases,
}
use socket_wrapper.Prelude.Int.{is_negative}
use socket_wrapper.Exception.{socket_bind, socket_join_multicast}
use socket_wrapper.Exec.{ok}
use socket_wrapper.Kernel.{Kernel}
use socket_wrapper.UdpDatagram.{UdpDatagram, Datagrams, subscribe_to_multicast}
use socket_wrapper.UdpDatagram.Read.{Throws}

module _ (K : Kernel) (D : Datagrams K) where
  -- A group is joined only if its address is in 224.0.0.0/4, and then `subscribeToMulticast` returns,
  -- or throws SOCKET_BIND if the system refuses; for any other address it throws
  -- SOCKET_JOIN_MULTICAST and makes no call. The condition is that inet_addr reads the bounds.
  subscribe_to_multicast_lem :
      (group : String) (u : UdpDatagram) (w : K.World)
      → D.inet_addr "224.0.0.0" ≡ 224 * 2 ^ 24
      → D.inet_addr "240.0.0.0" ≡ 240 * 2 ^ 24
      → ((224 * 2 ^ 24 ≤ D.inet_addr group)
          × (D.inet_addr group < 240 * 2 ^ 24)
          × (((subscribe_to_multicast K D group u w).0 ≡ ok tt)
              ⊎ Throws K D socket_bind (subscribe_to_multicast K D group u w).0))
        ⊎ (((D.inet_addr group < 224 * 2 ^ 24) ⊎ (240 * 2 ^ 24 ≤ D.inet_addr group))
            × Throws K D socket_join_multicast (subscribe_to_multicast K D group u w).0
            × ((subscribe_to_multicast K D group u w).1 ≡ w))
  unfolding subscribe_to_multicast
  subscribe_to_multicast_lem group u w low high =
      let first = D.inet_addr "224.0.0.0" in
      let address = D.inet_addr group in
      elim (Bool-cases (leb first address)) [
        | inr below ↦
            rw (below, subscribe_to_multicast) (inr (inl (ground (arith, below)), (_, refl), refl))
        | inl from ↦ elim (Bool-cases (ltb address (D.inet_addr "240.0.0.0"))) [
          | inr above ↦
              rw (from, above, subscribe_to_multicast)
                (inr (inr (ground (arith, above)), (_, refl), refl))
          | inl inside ↦
              let v = (D.set_reuse_addr u.socket_fd w).1 in
              elim (Bool-cases (is_negative (D.add_membership u.socket_fd address v).0)) [
                | inl refused ↦
                    rw (from, inside, refused, subscribe_to_multicast)
                      (inl (ground (arith, from), ground (arith, inside), inr (_, refl)))
                | inr joined ↦
                    rw (from, inside, joined, subscribe_to_multicast)
                      (inl (ground (arith, from), ground (arith, inside), inl refl))
              ]
        ]
      ]
