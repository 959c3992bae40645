-- ===== src/Udp.antt =====
-- src/udp.c, src/udp_data.c and src/udp_out.c: datagrams over IPv4. A packet is its bytes from the
-- IPv4 header on; the UDP header stands 20 bytes behind, whatever ihl says.
pub mod Queue
use level_ip.Prelude.{
  negsuc, suc, ltb, ◌==◌, if◌then◌else◌, get_or, drop, length, u8, u16, u32, zero, suc, negsuc, ◌+◌,
  ◌-◌, ◌*◌, ◌/◌, ◌%◌, ℤ, pos, neg, Bool, true, false, Option, none, some, List, [], ◌∷◌, ◌++◌, ℕ,
}
use level_ip.Ipv6.{read}
use level_ip.Ipv4.{Iphdr, ip_hdr, ntohs, calcuate_udp_checksum, Host4, ip_output}
use level_ip.Socket.{Socket, Sk}
use level_ip.Socket.Family.{af_inet}
use level_ip.Socket.Lookup.{socket_lookup_udp, socker_find_protocol_port}

-- What udp_data_dequeue reads of a queued buffer. `payload` is the memory from uhdr->data on.
pub record Datagram : Type 0 where
  pub payload : List ℕ
  pub dlen : ℕ
  pub sport : ℕ
  pub saddr : ℕ

-- The part of struct udp_sock that the data path writes. `pollin` is POLLIN of poll_events.
pub record UdpSock : Type 0 where
  pub receive_queue : List Datagram
  pub pollin : Bool

-- dlen is an unsigned int: a length below 8 wraps.
unfoldable pub udp_init_head : List ℕ → ℕ → Datagram
unfolding ntohs
udp_init_head uhdr saddr = record {
  payload = drop 8 uhdr;
  dlen = u32 (ntohs uhdr 4 + 4294967296 - 8);
  sport = ntohs uhdr 0;
  saddr = saddr;
}

-- The field csum is read in the byte order of the machine.
unfoldable pub udp_checksum_right : Iphdr → List ℕ → Bool
unfolding calcuate_udp_checksum
udp_checksum_right ihdr uhdr =
    calcuate_udp_checksum ihdr.saddr ihdr.daddr uhdr == get_or uhdr 6 0 + 256 * get_or uhdr 7 0

-- The socket that the datagram is queued at.
unfoldable pub udp_in : List ℕ → List Socket → Option (Socket × Datagram)
unfolding ip_hdr udp_checksum_right udp_init_head socket_lookup_udp ntohs
udp_in pkt sockets =
    let ihdr = ip_hdr pkt in
    let uhdr = drop 20 pkt in
    if udp_checksum_right ihdr uhdr
    then elim (socket_lookup_udp af_inet (ntohs uhdr 2) sockets) [
      | none ↦ none
      | some sock ↦ some (sock, udp_init_head uhdr ihdr.saddr)
    ]
    else none

unfoldable pub udp_data_queue : Datagram → UdpSock → UdpSock
udp_data_queue d usk = record { receive_queue = usk.receive_queue ++ d ∷ []; pollin = true }

-- What one call copies, the source it reports, and what it returns: the length of the datagram, even
-- where less of it was copied.
pub record Received : Type 0 where
  pub copied : List ℕ
  pub from : Option (ℕ × ℕ)
  pub rlen : ℕ

abbrev pub nothing : Received
nothing = record { copied = []; from = none; rlen = 0 }

abbrev pub is_empty : List Datagram → Bool
is_empty [] = true
is_empty (d ∷ q) = false

unfoldable pub guarded_len : ℕ → Datagram → ℕ
guarded_len userlen d = if ltb userlen d.dlen then userlen else d.dlen

unfoldable pub dequeue_from : ℕ → List Datagram → UdpSock → Received × UdpSock
unfolding guarded_len
dequeue_from userlen [] usk = (nothing, usk)
dequeue_from userlen (d ∷ q) usk = (
  record {
    copied = read (guarded_len userlen d) d.payload;
    from = some (d.saddr, d.sport);
    rlen = d.dlen;
  },
  record { receive_queue = q; pollin = if is_empty q then false else usk.pollin },
)

unfoldable pub udp_data_dequeue : ℕ → UdpSock → Received × UdpSock
unfolding dequeue_from
udp_data_dequeue userlen usk = dequeue_from userlen usk.receive_queue usk

-- udp_bind: EADDRINUSE is 98. The address is not looked at.
unfoldable pub udp_bind : ℕ → ℕ → List Socket → Sk → ℤ × Sk
unfolding socker_find_protocol_port
udp_bind sport saddr sockets sk = elim (socker_find_protocol_port sport 17 sockets) [
  | some sock ↦ (neg 98, sk)
  | none ↦ (pos 0, record sk { sport = sport; saddr4 = saddr })
]

-- The header of udp_transmit_skb; ip_output writes the checksum.
unfoldable pub udp_segment : Sk → List ℕ → List ℕ
udp_segment sk buf =
    let len = length buf + 8 in
    u8 (sk.sport / 256)
    ∷ u8 sk.sport
    ∷ u8 (sk.dport / 256)
    ∷ u8 sk.dport
    ∷ u8 (len / 256)
    ∷ u8 len
    ∷ 0
    ∷ 0
    ∷ buf

-- udp_alloc_skb, udp_transmit_skb and the return value, whatever became of the packet.
unfoldable pub udp_out_send : Sk → List ℕ → Host4 → ℕ × Host4
unfolding udp_segment ip_output
udp_out_send sk buf h =
    (length buf, (ip_output sk.daddr4 (length buf + 8) 0 17 0 (udp_segment sk buf) h).1)

unfoldable pub udp_sendto : List ℕ → ℕ → ℕ → Sk → Host4 → ℤ × Sk × Host4
unfolding udp_out_send
udp_sendto buf daddr dport sk h =
    let t = record sk { dport = dport; daddr4 = daddr } in
    let (n, s) = udp_out_send t buf h in
    elim sk.err [
      | pos zero ↦ (pos n, t, s)
      | pos (suc e) ↦ (sk.err, sk, h)
      | negsuc e ↦ (sk.err, sk, h)
    ]
