-- ===== src/Tcp/Segment/Acceptable.antt =====
-- src/tcp_input.c: which segments tcp_verify_segment accepts.
use level_ip.Prelude.{◌+◌, ◌≡◌, ◌≤◌, ◌<◌, ◌⊎◌, ◌↔◌, true, false, arith}
use level_ip.Skbuff.{SkBuff, Tcphdr}
use level_ip.Tcp.Sock.{TcpSock}
use level_ip.Tcp.Segment.{tcp_verify_segment}

-- While the window does not reach over 2^32, a segment is acceptable exactly when its sequence number
-- lies between rcv_nxt and the right edge of the window, and the window is open if it carries data.
pub tcp_verify_segment_iff :
    (th : Tcphdr) (skb : SkBuff) (s : TcpSock)
    → s.tcb.rcv_nxt + s.tcb.rcv_wnd < 4294967296
    → (tcp_verify_segment th skb s ≡ true) ↔ (
        (s.tcb.rcv_nxt ≤ th.seq)
        × (th.seq ≤ s.tcb.rcv_nxt + s.tcb.rcv_wnd)
        × ((skb.dlen ≡ 0) ⊎ (0 < s.tcb.rcv_wnd)))
unfolding tcp_verify_segment
tcp_verify_segment_iff th skb s w = ground arith

-- Once the window reaches over 2^32 no segment at all is acceptable, the expected one included: the
-- numbers are compared without regard to the wrap.
pub tcp_verify_segment_wrap :
    (th : Tcphdr) (skb : SkBuff) (s : TcpSock)
    → s.tcb.rcv_nxt < 4294967296
    → s.tcb.rcv_wnd < 4294967296
    → 4294967296 ≤ s.tcb.rcv_nxt + s.tcb.rcv_wnd
    → tcp_verify_segment th skb s ≡ false
unfolding tcp_verify_segment
tcp_verify_segment_wrap th skb s n w h = ground arith
