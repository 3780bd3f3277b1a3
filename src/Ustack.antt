-- ===== src/Ustack.antt =====
-- 2.4.1-ustack/ustack.c: a UDP echo server on raw Ethernet frames. A frame is its three headers and
-- the bytes behind them; multi-byte fields hold the word that the host reads from memory. Ustack/Echo
-- says what a frame is answered with, Ustack/Burst what becomes of the buffers.
pub mod Echo
pub mod Burst
mod Tests
use networking_programming.Base.{
  ℕ, zero, suc, ◌+◌, ◌-◌, ◌%◌, ◌^◌, Bool, true, false, Option, none, some, List, [], ◌∷◌, ◌++◌,
  length, ltb, ◌==◌, if◌then◌else◌,
}
use networking_programming.Base.Words.{htons}
use networking_programming.Memory.{Bytes, Outcome, ok, fault, ◌>>=◌, slice, patch}

-- `struct rte_ether_hdr`
pub record EtherHdr : Type 0 where
  pub d_addr : Bytes
  pub s_addr : Bytes
  pub ether_type : ℕ

-- `struct rte_ipv4_hdr`
pub record Ipv4Hdr : Type 0 where
  pub version_ihl : ℕ
  pub type_of_service : ℕ
  pub total_length : ℕ
  pub packet_id : ℕ
  pub fragment_offset : ℕ
  pub time_to_live : ℕ
  pub next_proto_id : ℕ
  pub hdr_checksum : ℕ
  pub src_addr : ℕ
  pub dst_addr : ℕ

-- `struct rte_udp_hdr`
pub record UdpHdr : Type 0 where
  pub src_port : ℕ
  pub dst_port : ℕ
  pub dgram_len : ℕ
  pub dgram_cksum : ℕ

-- The data of an mbuf, seen through the three headers; `payload` is all the room behind them.
pub record Frame : Type 0 where
  pub eth : EtherHdr
  pub ip : Ipv4Hdr
  pub udp : UdpHdr
  pub payload : Bytes

-- `struct rte_mbuf`
pub record Mbuf : Type 0 where
  pub pkt_len : ℕ
  pub data_len : ℕ
  pub frame : Frame

-- The global variables `src_MAC`, `des_MAC`, `src_IP`, `des_IP`, `src_port`, `des_port`.
pub record Addresses : Type 0 where
  pub src_mac : Bytes
  pub des_mac : Bytes
  pub src_ip : ℕ
  pub des_ip : ℕ
  pub src_port : ℕ
  pub des_port : ℕ

-- RTE_ETHER_TYPE_IPV4 and IPPROTO_UDP; the sizes of the three headers.
abbrev pub ether_type_ipv4 : ℕ
ether_type_ipv4 = 0x0800

abbrev pub proto_udp : ℕ
proto_udp = 17

abbrev pub eth_size : ℕ
eth_size = 14

abbrev pub ip_size : ℕ
ip_size = 20

abbrev pub udp_size : ℕ
udp_size = 8

-- A difference that is stored in a `uint16_t`.
abbrev pub sub16 : ℕ → ℕ → ℕ
sub16 a b = (a + 2 ^ 16 - b) % 2 ^ 16

-- What the program keeps over a burst: its globals, the mbufs handed to `rte_eth_tx_burst`, the
-- positions among those that it then frees itself, and the indices of the received mbufs that it
-- frees.
pub record Port : Type 0 where
  pub addresses : Addresses
  pub sent : List Mbuf
  pub freed_sent : List ℕ
  pub freed : List ℕ

-- The test that lets a frame through: IPv4 behind Ethernet, and UDP behind IPv4.
unfoldable pub is_udp : Frame → Bool
is_udp f =
    if f.eth.ether_type == htons ether_type_ipv4 then f.ip.next_proto_id == proto_udp else false

-- The six `rte_memcpy` from a received frame: its receiver is the source of the answer.
unfoldable pub learn : Frame → Addresses
learn f = record {
  src_mac = f.eth.d_addr;
  des_mac = f.eth.s_addr;
  src_ip = f.ip.dst_addr;
  des_ip = f.ip.src_addr;
  src_port = f.udp.dst_port;
  des_port = f.udp.src_port;
}

-- What DPDK computes and gives: the checksum of an IPv4 header, that of a datagram over the header
-- before it and the bytes behind it, and the buffer of the mbuf number `k` that is allocated, if
-- there is one.
module _ (ipv4_cksum : Ipv4Hdr → ℕ) (udp_cksum : Ipv4Hdr → UdpHdr → Bytes → ℕ)
    (alloc : ℕ → Option Frame) where
  -- `ustack_encode_udp_pkt`, on the buffer `msg`. The number of bytes to copy is a `size_t`: below
  -- eight bytes of datagram it wraps to a number that no array holds.
  unfoldable pub encode_udp_pkt : Addresses → Frame → Bytes → ℕ → Outcome Frame
  encode_udp_pkt g msg text length =
      let ehdr : EtherHdr = record {
        d_addr = g.des_mac;
        s_addr = g.src_mac;
        ether_type = htons ether_type_ipv4;
      } in
      let iphdr : Ipv4Hdr = record {
        version_ihl = 0x45;
        type_of_service = 0;
        total_length = htons (sub16 length eth_size);
        packet_id = 0;
        fragment_offset = 0;
        time_to_live = 64;
        next_proto_id = proto_udp;
        hdr_checksum = 0;
        src_addr = g.src_ip;
        dst_addr = g.des_ip;
      } in
      let summed : Ipv4Hdr = record iphdr { hdr_checksum = ipv4_cksum iphdr } in
      let udplen : ℕ = sub16 length (eth_size + ip_size) in
      let udphdr : UdpHdr = record {
        src_port = g.src_port;
        dst_port = g.des_port;
        dgram_len = htons udplen;
        dgram_cksum = 0;
      } in
      if ltb udplen udp_size
      then fault
      else (slice text 0 (udplen - udp_size) >>= λ bytes. patch msg.payload 0 bytes >>= λ payload.
          ok (record {
            eth = ehdr;
            ip = summed;
            udp = record udphdr { dgram_cksum = udp_cksum summed udphdr payload };
            payload = payload;
          }))

  -- `ustack_send`: the `k`-th mbuf, filled; `none` is `rte_exit`. The total length becomes a
  -- `uint16_t` in `data_len` and in the call.
  unfoldable pub send : Addresses → ℕ → Bytes → ℕ → Outcome (Option Mbuf)
  send g k msg msg_len =
      let total_length : ℕ = msg_len + eth_size + ip_size + udp_size in
      elim (alloc k) [
        | none ↦ ok none
        | some mbuf ↦ encode_udp_pkt g mbuf msg (total_length % 2 ^ 16) >>= λ frame. ok (
            some
              (record { pkt_len = total_length; data_len = total_length % 2 ^ 16; frame = frame }))
      ]

  -- The branch of the loop for a UDP frame, the `i`-th of the burst. The mbuf that was sent is
  -- freed behind `rte_eth_tx_burst`, and then the one that was received.
  unfoldable pub answer : ℕ → Frame → Port → Outcome (Option Port)
  answer i f s =
      send (learn f) (length s.sent) f.payload (sub16 (htons f.udp.dgram_len) udp_size)
      >>= λ tx_buf. elim tx_buf [
        | none ↦ ok none
        | some m ↦ ok (
            some (record {
              addresses = learn f;
              sent = s.sent ++ m ∷ [];
              freed_sent = s.freed_sent ++ length s.sent ∷ [];
              freed = s.freed ++ i ∷ [];
            }))
      ]

  -- One round of `for (int i = 0; i < nb_rcvd; i ++)`.
  unfoldable pub round : ℕ → Frame → Port → Outcome (Option Port)
  round i f s = if is_udp f then answer i f s else ok (some s)

  unfoldable pub rounds : ℕ → List Frame → Port → Outcome (Option Port)
  rounds i [] s = ok (some s)
  rounds i (f ∷ fs) s =
      round i f s >>= λ after. elim after [ none ↦ ok none | some s' ↦ rounds (i + 1) fs s' ]

  -- One round of `while (1)` on the frames that `rte_eth_rx_burst` gives: more than BURST_LEN is an
  -- exit.
  unfoldable pub burst : List Frame → Port → Outcome (Option Port)
  burst frames s = if ltb 128 (length frames) then ok none else rounds 0 frames s
