-- ===== src/Tcp/Input/Established.antt =====
-- src/tcp_input.c: tcp_synsent takes the SYN-ACK.
use level_ip.Tcp.Send.Split.{user_timeout-kept}
use level_ip.Tcp.Rto.{tcp_rearm_user_timeout}
use level_ip.Tcp.Output.{tcp_send_ack}
use level_ip.Tcp.Input.Handshake.{parse_opts-kept}
use level_ip.Tcp.Input.{bad_synsent_ack, synsent_syn, synsent_established, tcp_synsent}
use level_ip.Tcp.Frame.{tcp_send_ack-Untouched, free_skb-Untouched}
use level_ip.Tcp.Done.{sock_connected}
use level_ip.Tcp.Congestion.Acked.{clean-kept}
use level_ip.Tcp.Congestion.{update_snd_win}
use level_ip.Skbuff.{Tcphdr, SkBuff, is_freed}
use level_ip.Prelude.{
  List, ◌∷◌, ◌⊎◌, inl, inr, refl, ap, Bool-cases, pos, u32, ℕ, ◌+◌, ◌≤◌, ◌<◌, ◌≡◌, true, false,
  arith,
}
use level_ip.Tcp.Sock.{
  stop, established, TcpSock, Effect, wake_sleep, socket_connected, freed, free_skb,
}

-- After the SYN was taken.
record TakesSyn (th : Tcphdr) (s t : TcpSock) : Type 0 where
  state_kept : t.state ≡ s.state
  rcv_new : t.tcb.rcv_nxt ≡ u32 (th.seq + 1)
  irs_new : t.tcb.irs ≡ th.seq
  una_new : t.tcb.snd_una ≡ th.ack_seq
  nxt_kept : t.tcb.snd_nxt ≡ s.tcb.snd_nxt
  iss_kept : t.tcb.iss ≡ s.tcb.iss

synsent_syn-TakesSyn :
    (th : Tcphdr) (s : TcpSock) → th.ack ≡ true → TakesSyn th s (synsent_syn th s)
unfolding synsent_syn
synsent_syn-TakesSyn th s a =
    let t = record s {
      tcb = record (s.tcb) { rcv_nxt = u32 (th.seq + 1); irs = th.seq; snd_una = th.ack_seq };
    } in
    let k = clean-kept th.ack_seq t in ground (arith, k)

-- The connection once the handshake is done.
pub record IsConnected (th : Tcphdr) (s t : TcpSock) : Type 0 where
  pub state_new : t.state ≡ established
  pub err_clear : t.err ≡ pos 0
  pub rcv_new : t.tcb.rcv_nxt ≡ u32 (th.seq + 1)
  pub una_new : t.tcb.snd_una ≡ s.tcb.snd_nxt
  pub nxt_kept : t.tcb.snd_nxt ≡ s.tcb.snd_nxt

user_timeout-state : (tick : ℕ) (s : TcpSock) → (tcp_rearm_user_timeout tick s).state ≡ s.state
unfolding tcp_rearm_user_timeout
user_timeout-state tick s = ground arith

established-IsConnected :
    (tick : ℕ) (th : Tcphdr) (s r : TcpSock)
    → TakesSyn th s r
    → IsConnected th s (synsent_established tick th r)
unfolding synsent_established sock_connected update_snd_win
established-IsConnected tick th s r k =
    let t = record r {
      state = established;
      tcb = record (r.tcb) {
        snd_una = r.tcb.snd_nxt;
        snd_wnd = th.win;
        snd_wl1 = th.seq;
        snd_wl2 = th.ack_seq;
      };
      timers = record (r.timers) { backoff = 0; rto = 1000 };
    } in
    let a = tcp_send_ack t in
    let u = tcp_rearm_user_timeout tick a in
    ground (
      arith,
      k,
      tcp_send_ack-Untouched t,
      user_timeout-kept tick a,
      user_timeout-state tick a,
      parse_opts-kept th u,
    )

-- The newest effects: the socket is connected and the sleeper is woken, then the buffer may go.
abbrev pub Tells : SkBuff → List Effect → Type 0
Tells skb log =
    (rest : List Effect) × ((log ≡ wake_sleep ∷ socket_connected ∷ rest)
      ⊎ (log ≡ freed skb ∷ wake_sleep ∷ socket_connected ∷ rest))

free_skb-Tells :
    (skb : SkBuff) (s : TcpSock) (rest : List Effect)
    → s.log ≡ wake_sleep ∷ socket_connected ∷ rest
    → Tells skb (free_skb skb s).log
unfolding free_skb
free_skb-Tells skb s rest e = elim (Bool-cases (is_freed skb)) [
  | inl b ↦ rw (b, free_skb) (rest, inr (ap (◌∷◌ (freed skb)) e))
  | inr b ↦ rw (b, free_skb) (rest, inl e)
]

established-Tells :
    (tick : ℕ) (th : Tcphdr) (skb : SkBuff) (s : TcpSock)
    → Tells skb (free_skb skb (synsent_established tick th s)).log
unfolding synsent_established sock_connected
established-Tells tick th skb s = free_skb-Tells skb (synsent_established tick th s) _ refl

good_ack :
    (th : Tcphdr) (s : TcpSock)
    → s.tcb.iss < th.ack_seq
    → s.tcb.snd_una ≤ th.ack_seq
    → th.ack_seq ≤ s.tcb.snd_nxt
    → bad_synsent_ack th s ≡ false
unfolding bad_synsent_ack
good_ack th s i u n = ground arith

taken :
    (tick : ℕ) (wakes : List TcpSock) (th : Tcphdr) (skb : SkBuff) (s : TcpSock)
    → th.syn ≡ true
    → th.rst ≡ false
    → bad_synsent_ack th s ≡ false
    → (synsent_syn th s).tcb.iss < (synsent_syn th s).tcb.snd_una
    → tcp_synsent tick wakes th skb s
      ≡ stop (free_skb skb (synsent_established tick th (synsent_syn th s)))
unfolding tcp_synsent
taken tick wakes th skb s y r b l = ground (arith, b)

-- A SYN-ACK that acknowledges the SYN establishes the connection without sleeping: it expects the
-- number after the peer's SYN, everything sent counts as acknowledged, no error is set, and the last
-- that happens, but for the buffer that may be freed, is that the socket becomes connected and the
-- waiting caller is woken.
pub tcp_synsent-IsConnected :
    (tick : ℕ) (wakes : List TcpSock) (th : Tcphdr) (skb : SkBuff) (s : TcpSock)
    → th.syn ≡ true
    → th.ack ≡ true
    → th.rst ≡ false
    → s.tcb.iss < th.ack_seq
    → s.tcb.snd_una ≤ th.ack_seq
    → th.ack_seq ≤ s.tcb.snd_nxt
    → (t : TcpSock) × (tcp_synsent tick wakes th skb s ≡ stop t)
      × IsConnected th s t
      × Tells skb t.log
unfolding tcp_synsent
tcp_synsent-IsConnected tick wakes th skb s y a r i u n =
    let t = synsent_syn th s in
    let k = synsent_syn-TakesSyn th s a in
    let d = synsent_established tick th t in
    let c = established-IsConnected tick th s t k in
    (
      free_skb skb d,
      taken tick wakes th skb s y r (good_ack th s i u n) (ground (arith, k)),
      ground (arith, c, free_skb-Untouched skb d),
      established-Tells tick th skb t,
    )
