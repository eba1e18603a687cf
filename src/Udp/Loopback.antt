-- ===== src/Udp/Loopback.antt =====
-- src/infra/transport_udp_sim.c: one receiving socket of the local host, from both sides.
use bit_chat.Prelude.{
  ℕ, false, ◌≤◌, ◌<◌, ◌≡◌, ◌≢◌, refl, ◌∙◌, inl, inr, Bool, ◌||◌, List, [], ◌∷◌, ◌++◌, arith, Option,
  none, some, length, take, length-append, All, All-append, ◌==◌, replicate,
}
use mathlib.Core.List.{Memᴰ}
use mathlib.Core.List.Memᴰ
use native.Mathlib.Decide.{ℕ_discrete}
use bit_chat.Status.{ok, err}
use bit_chat.Udp.{Udp, Sockets, is_whole, send_all, udp_send, received, udp_recv}

-- The largest payload of a UDP datagram.
abbrev pub max_datagram : ℕ
max_datagram = 65507

-- The socket `fd`, bound to `port`: `queue` is the datagrams that wait there. What is sent to the port
-- is queued, as long as there is room, and taken in the order of its arrival.
pub record IsLoopback {K : Type 0} (sockets : Sockets K) (queue : K → List (List ℕ)) (port fd : ℕ)
    : Type 0 where
  pub queued :
      (net : K) (sockfd : ℕ) (packet : List ℕ)
      → length packet ≤ max_datagram
      → queue (sockets.sendto net sockfd port packet).1 ≡ queue net ++ (packet ∷ [])
  pub elsewhere :
      (net : K) (sockfd other : ℕ) (packet : List ℕ)
      → other ≢ port
      → queue (sockets.sendto net sockfd other packet).1 ≡ queue net
  pub taken :
      (net : K) (n : ℕ) (packet : List ℕ) (packets : List (List ℕ))
      → queue net ≡ packet ∷ packets
      → ((sockets.recvfrom net fd n).0 ≡ some (take n packet))
        × (queue (sockets.recvfrom net fd n).1 ≡ packets)
  pub empty : (net : K) (n : ℕ) → queue net ≡ [] → (sockets.recvfrom net fd n).0 ≡ none

received-some :
    {K : Type 0} (sockets : Sockets K) (self : Udp K) (packet : List ℕ) (out : Option (List ℕ) × K)
    → 0 < length packet
    → out.0 ≡ some packet
    → received sockets self out ≡ (ok, packet, replicate 32 0, record self { net = out.1 })
received-some sockets self [] out h e = absurd (omega arith)
received-some sockets self (b ∷ bs) (got, net) h e = let e' : got ≡ some (b ∷ bs) = e in rw e' refl

received-none :
    {K : Type 0} (sockets : Sockets K) (self : Udp K) (out : Option (List ℕ) × K)
    → out.0 ≡ none
    → received sockets self out ≡ (err, [], [], record self { net = out.1 })
received-none sockets self (got, net) e = let e' : got ≡ none = e in rw e' refl

-- Only copies of one packet wait.
abbrev pub AreCopies : List ℕ → List (List ℕ) → Type 0
AreCopies packet packets = All (λ p. p ≡ packet) packets

module _ {K : Type 0} {sockets : Sockets K} {queue : K → List (List ℕ)} {port fd : ℕ}
    (laws : IsLoopback sockets queue port fd) where
  -- What waits before and after a send: no less, and more where it was for this port.
  abbrev Grows : List ℕ → List (List ℕ) → List (List ℕ) → Type 0
  Grows packet before after = AreCopies packet after × (length before ≤ length after)

  sendto-Grows :
      (net : K) (sockfd other : ℕ) (packet : List ℕ)
      → length packet ≤ max_datagram
      → AreCopies packet (queue net)
      → Grows packet (queue net) (queue (sockets.sendto net sockfd other packet).1)
  sendto-Grows net sockfd other packet small copies = elim (ℕ_discrete other port) [
    | yes same ↦
        rw (same, laws.queued net sockfd packet small)
          (
            All-append (λ p. p ≡ packet) (queue net) (packet ∷ []) copies (refl, tt),
            omega (arith, length-append (queue net) (packet ∷ [])),
          )
    | no differ ↦ rw (laws.elsewhere net sockfd other packet differ) (copies, omega arith)
  ]

  send_all-Grows :
      (sockfd : ℕ) (packet : List ℕ) (ports : List ℕ) (sent_any : Bool) (net : K)
      → length packet ≤ max_datagram
      → AreCopies packet (queue net)
      → Grows packet (queue net) (queue (send_all sockets sockfd packet ports sent_any net).1)
  unfolding send_all
  send_all-Grows sockfd packet [] sent_any net small copies = (copies, omega arith)
  send_all-Grows sockfd packet (p ∷ ps) sent_any net small copies =
      let (n, net') = sockets.sendto net sockfd p packet in
      let (copies', more) = sendto-Grows net sockfd p packet small copies in
      let (copies'', more') =
        send_all-Grows sockfd packet ps (is_whole n (length packet) || sent_any) net' small
          copies' in
      (copies'', omega (arith, more, more'))

  -- A send to ports with this one among them leaves a copy.
  send_all-arrives :
      (sockfd : ℕ) (packet : List ℕ) (ports : List ℕ) (sent_any : Bool) (net : K)
      → length packet ≤ max_datagram
      → Memᴰ port ports
      → AreCopies packet (queue net)
      → 0 < length (queue (send_all sockets sockfd packet ports sent_any net).1)
  unfolding send_all
  send_all-arrives sockfd packet [] sent_any net small mem copies = absurd (Memᴰ.not-nil mem)
  send_all-arrives sockfd packet (p ∷ ps) sent_any net small mem copies =
      let (n, net') = sockets.sendto net sockfd p packet in
      let any = is_whole n (length packet) || sent_any in
      let (copies', more) = sendto-Grows net sockfd p packet small copies in
      elim (Memᴰ.cases_cons mem) [
        | inl same ↦
            let filled : 0 < length (queue net') =
              rw (← same, laws.queued net sockfd packet small)
                (omega (arith, length-append (queue net) (packet ∷ []))) in
            let (_, more') = send_all-Grows sockfd packet ps any net' small copies' in
            omega (arith, filled, more')
        | inr deep ↦ send_all-arrives sockfd packet ps any net' small deep copies'
      ]

  -- A transport that sends to the port, while only copies wait there; and while some wait.
  abbrev pub IsOpen : List ℕ → Udp K → Type 0
  IsOpen packet self = AreCopies packet (queue self.net) × Memᴰ port self.peer_ports

  abbrev pub HasArrived : List ℕ → Udp K → Type 0
  HasArrived packet self = IsOpen packet self × (0 < length (queue self.net))

  pub udp_send-HasArrived :
      (self : Udp K) (key packet : List ℕ)
      → 0 < length packet
      → length packet ≤ max_datagram
      → IsOpen packet self
      → HasArrived packet (udp_send sockets self key packet).1
  unfolding udp_send
  udp_send-HasArrived self key packet filled small (copies, mem) =
      let some_bytes : (length packet == 0) ≡ false = ground arith in
      let (copies', more) =
        send_all-Grows self.sockfd packet self.peer_ports false self.net small copies in
      let arrived =
        send_all-arrives self.sockfd packet self.peer_ports false self.net small mem copies in
      rw some_bytes ((copies', mem), arrived)

  -- A receive takes the first packet, as much of it as fits the buffer.
  pub udp_recv-taken :
      (self : Udp K) (buf_len : ℕ) (packet : List ℕ) (packets : List (List ℕ))
      → self.sockfd ≡ fd
      → 0 < length (take buf_len packet)
      → queue self.net ≡ packet ∷ packets
      → (net : K) × (udp_recv sockets self buf_len
          ≡ (ok, take buf_len packet, replicate 32 0, record self { net = net }))
        × (queue net ≡ packets)
  unfolding udp_recv
  udp_recv-taken self buf_len packet packets own filled waits =
      let (got, left) = laws.taken self.net buf_len packet packets waits in
      (
        (sockets.recvfrom self.net fd buf_len).1,
        received-some sockets self (take buf_len packet)
              (sockets.recvfrom self.net self.sockfd buf_len) filled (rw own got)
            ∙ rw own refl,
        left,
      )

  -- Where nothing waits, it gives an error.
  pub udp_recv-empty :
      (self : Udp K) (buf_len : ℕ)
      → self.sockfd ≡ fd
      → queue self.net ≡ []
      → (net : K) × (udp_recv sockets self buf_len ≡ (err, [], [], record self { net = net }))
  unfolding udp_recv
  udp_recv-empty self buf_len own waits = (
    (sockets.recvfrom self.net fd buf_len).1,
    received-none sockets self (sockets.recvfrom self.net self.sockfd buf_len)
          (rw own (laws.empty self.net buf_len waits))
        ∙ rw own refl,
  )
