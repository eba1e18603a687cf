-- ===== src/Udp/Slots.antt =====
-- The functions of a transport that `bc_transport_udp_create` made.
use bit_chat.Prelude.{
  ℕ, ◌≡◌, refl, ltb, length, List, Option, none, some, true, if◌then◌else◌, if-keeps, subst, ◌*◌,
}
use bit_chat.Status.{Env, transport_struct, context_struct, bytes}
use bit_chat.Port.{Transport}
use bit_chat.Udp.{Udp, Sockets, udp_send, udp_recv, vtable, bind_socket, udp_create, peer_list}

module _ {K : Type 0} (sockets : Sockets K) where
  -- The transport sends with `udp_send` and receives with `udp_recv`.
  pub record IsUdp (t : Transport (Udp K)) : Type 0 where
    pub sends : t.send ≡ some (udp_send sockets)
    pub receives : t.recv ≡ some (udp_recv sockets)

  vtable-IsUdp : IsUdp (vtable sockets)
  unfolding vtable
  vtable-IsUdp = record { sends = refl; receives = refl }

  abbrev Made : Option (Transport (Udp K) × Udp K) × K → Type 0
  Made (none, net) = Unit
  Made (some (t, self), net) = IsUdp t

  bind_socket-Made :
      (env : Env) (my_port : ℕ) (ports : List ℕ) (out : Option ℕ × K)
      → Made (bind_socket sockets env my_port ports out)
  unfolding bind_socket vtable
  bind_socket-Made env my_port ports (none, net) = tt
  bind_socket-Made env my_port ports (some sockfd, net) =
      let (bound, net') = sockets.bind net sockfd my_port in
      if-keeps Made bound (if-keeps Made (env.alloc transport_struct) vtable-IsUdp tt) tt

  udp_create-Made :
      (env : Env) (net : K) (my_port : ℕ) (ports : Option (List ℕ))
      → Made (udp_create sockets env net my_port ports)
  unfolding udp_create
  udp_create-Made env net my_port ports =
      let peers = peer_list sockets ports in
      let copied = if ltb 0 (length peers) then env.alloc (bytes (2 * length peers)) else true in
      if-keeps Made (env.alloc context_struct)
        (if-keeps Made copied (bind_socket-Made env my_port peers (sockets.socket net)) tt) tt

  pub udp_create-IsUdp :
      (env : Env) (net net' : K) (my_port : ℕ) (ports : Option (List ℕ)) (t : Transport (Udp K))
      (self : Udp K)
      → udp_create sockets env net my_port ports ≡ (some (t, self), net')
      → IsUdp t
  udp_create-IsUdp env net net' my_port ports t self e =
      subst Made e (udp_create-Made env net my_port ports)
