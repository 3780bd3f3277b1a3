-- ===== src/Ustack/Echo.antt =====
-- What `ustack.c` answers a UDP frame with.
use networking_programming.Base.{
  ℕ, ◌+◌, ◌-◌, ◌%◌, ◌^◌, ◌≤◌, ◌<◌, ◌≡◌, refl, ap, false, Option, some, [], ◌∷◌, ◌++◌, length, arith,
  take, ltb, length-take,
}
use networking_programming.Base.Words.{htons, htons-lt}
use networking_programming.Memory.{Bytes, ok, fault, splice}
use networking_programming.Memory.Laws.{slice-ok, patch-ok}
use networking_programming.Ustack.{
  Frame, Port, Ipv4Hdr, UdpHdr, EtherHdr, Mbuf, Addresses, encode_udp_pkt, send, answer, learn,
  sub16, eth_size, ip_size, udp_size, ether_type_ipv4, proto_udp,
}

-- A frame that goes back where another came from: each pair of addresses changes places.
pub record Answers (request reply : Frame) : Type 0 where
  pub d_addr : reply.eth.d_addr ≡ request.eth.s_addr
  pub s_addr : reply.eth.s_addr ≡ request.eth.d_addr
  pub ether_type : reply.eth.ether_type ≡ htons ether_type_ipv4
  pub src_addr : reply.ip.src_addr ≡ request.ip.dst_addr
  pub dst_addr : reply.ip.dst_addr ≡ request.ip.src_addr
  pub next_proto_id : reply.ip.next_proto_id ≡ proto_udp
  pub src_port : reply.udp.src_port ≡ request.udp.dst_port
  pub dst_port : reply.udp.dst_port ≡ request.udp.src_port

module _ (ipv4_cksum : Ipv4Hdr → ℕ) (udp_cksum : Ipv4Hdr → UdpHdr → Bytes → ℕ)
    (alloc : ℕ → Option Frame) where
  -- The lengths and checksums of a frame of `len` bytes that carries `d` bytes of datagram.
  pub record Sealed (len d : ℕ) (reply : Frame) : Type 0 where
    pub total_length : reply.ip.total_length ≡ htons (sub16 len eth_size)
    pub dgram_len : reply.udp.dgram_len ≡ htons d
    pub hdr_checksum : reply.ip.hdr_checksum ≡ ipv4_cksum (record reply.ip { hdr_checksum = 0 })
    pub dgram_cksum :
        reply.udp.dgram_cksum
        ≡ udp_cksum reply.ip (record reply.udp { dgram_cksum = 0 }) reply.payload

  module _ (g : Addresses) (msg : Frame) (text : Bytes) (len d : ℕ)
      (udplen : sub16 len (eth_size + ip_size) ≡ d) where
    encode_short : d < udp_size → encode_udp_pkt ipv4_cksum udp_cksum alloc g msg text len ≡ fault
    unfolding encode_udp_pkt
    encode_short short = ground arith

    encode_full :
        udp_size ≤ d
        → d - udp_size ≤ length text
        → d - udp_size ≤ length msg.payload
        → (reply : Frame) × (encode_udp_pkt ipv4_cksum udp_cksum alloc g msg text len ≡ ok reply)
          × Sealed len d reply
          × (reply.payload ≡ splice msg.payload 0 (take (d - udp_size) text))
          × (reply.eth ≡ record {
            d_addr = g.des_mac;
            s_addr = g.src_mac;
            ether_type = htons ether_type_ipv4;
          })
          × (reply.ip.src_addr ≡ g.src_ip)
          × (reply.ip.dst_addr ≡ g.des_ip)
          × (reply.ip.next_proto_id ≡ proto_udp)
          × (reply.udp.src_port ≡ g.src_port)
          × (reply.udp.dst_port ≡ g.des_port)
    unfolding encode_udp_pkt
    encode_full enough there room = (
      reply,
      rw (
        udplen,
        long_enough,
        slice-ok text 0 (d - udp_size) (omega arith),
        patch-ok msg.payload 0 (take (d - udp_size) text) (omega (arith, size)),
      ),
      record { total_length = refl; dgram_len = refl; hdr_checksum = refl; dgram_cksum = refl },
      refl,
      refl,
      refl,
      refl,
      refl,
      refl,
      refl,
    )
      where
        long_enough : ltb d udp_size ≡ false
        long_enough = ground arith

        size : length (take (d - udp_size) text) ≡ d - udp_size
        size = length-take (d - udp_size) text there

        iphdr : Ipv4Hdr
        iphdr = record {
          version_ihl = 0x45;
          type_of_service = 0;
          total_length = htons (sub16 len eth_size);
          packet_id = 0;
          fragment_offset = 0;
          time_to_live = 64;
          next_proto_id = proto_udp;
          hdr_checksum = 0;
          src_addr = g.src_ip;
          dst_addr = g.des_ip;
        }

        summed : Ipv4Hdr
        summed = record iphdr { hdr_checksum = ipv4_cksum iphdr }

        udphdr : UdpHdr
        udphdr = record {
          src_port = g.src_port;
          dst_port = g.des_port;
          dgram_len = htons d;
          dgram_cksum = 0;
        }

        filled : Bytes
        filled = splice msg.payload 0 (take (d - udp_size) text)

        reply : Frame
        reply = record {
          eth = record {
            d_addr = g.des_mac;
            s_addr = g.src_mac;
            ether_type = htons ether_type_ipv4;
          };
          ip = summed;
          udp = record udphdr { dgram_cksum = udp_cksum summed udphdr filled };
          payload = filled;
        }

  -- The frame that answers the datagram of `d` bytes in `request`, built in the buffer `msg`.
  pub record IsEcho (request msg : Frame) (d : ℕ) (m : Mbuf) : Type 0 where
    pub addressed : Answers request m.frame
    pub sealed : Sealed ((d + eth_size + ip_size) % 2 ^ 16) d m.frame
    pub payload : m.frame.payload ≡ splice msg.payload 0 (take (d - udp_size) request.payload)
    pub pkt_len : m.pkt_len ≡ d + eth_size + ip_size
    pub data_len : m.data_len ≡ (d + eth_size + ip_size) % 2 ^ 16

  module _ (i : ℕ) (f : Frame) (s : Port) {d : ℕ} {buffer : Frame}
      (stated : htons f.udp.dgram_len ≡ d) (got : alloc (length s.sent) ≡ some buffer) where
    d_lt : d < 2 ^ 16
    d_lt = omega (arith, stated, htons-lt f.udp.dgram_len)

    total : ℕ
    total = sub16 d udp_size + eth_size + ip_size + udp_size

    total_lem : 8 ≤ d → total ≡ d + eth_size + ip_size
    unfolding total
    total_lem enough = omega (arith, d_lt)

    udplen : sub16 (total % 2 ^ 16) (eth_size + ip_size) ≡ d
    unfolding total
    udplen = omega (arith, d_lt)

    -- A UDP frame that states a datagram of less than 8 bytes makes its answer undefined
    -- behaviour, if an mbuf is allocated for it.
    pub answer_short : d < udp_size → answer ipv4_cksum udp_cksum alloc i f s ≡ fault
    unfolding answer send total
    answer_short short = rw stated (
        rw (got, send)
          (rw (encode_short (learn f) buffer f.payload (total % 2 ^ 16) d udplen short)))

    -- If a frame states a datagram of `d` bytes, at least 8, its payload and the buffer of the next
    -- mbuf hold `d - 8` bytes, and that mbuf is allocated, the frame is answered with one mbuf:
    -- Ethernet, IP and UDP addresses change places, the payload begins with the `d - 8` bytes
    -- received, `pkt_len` is `d + 34`, `data_len` and the length fields are those numbers in 16
    -- bits, each checksum is the one computed over its header with the checksum field zero; and the
    -- mbuf that was sent is freed, and so is the one received.
    pub answer-IsEcho :
        udp_size ≤ d
        → d - udp_size ≤ length f.payload
        → d - udp_size ≤ length buffer.payload
        → (m : Mbuf) × (answer ipv4_cksum udp_cksum alloc i f s
            ≡ ok (
                some (record {
                  addresses = learn f;
                  sent = s.sent ++ m ∷ [];
                  freed_sent = s.freed_sent ++ length s.sent ∷ [];
                  freed = s.freed ++ i ∷ [];
                })))
          × IsEcho f buffer d m
    unfolding answer send learn total
    answer-IsEcho enough there room =
        let e =
          encode_full (learn f) buffer f.payload (total % 2 ^ 16) d udplen enough there room in
        (
          record { pkt_len = total; data_len = total % 2 ^ 16; frame = e.0 },
          rw stated (rw (got, send) (rw e.1)),
          record {
            addressed = record {
              d_addr = ap (λ (h : EtherHdr). h.d_addr) e.4;
              s_addr = ap (λ (h : EtherHdr). h.s_addr) e.4;
              ether_type = ap (λ (h : EtherHdr). h.ether_type) e.4;
              src_addr = e.5;
              dst_addr = e.6;
              next_proto_id = e.7;
              src_port = e.8;
              dst_port = e.9;
            };
            sealed = rw (← total_lem enough) e.2;
            payload = e.3;
            pkt_len = total_lem enough;
            data_len = ap (λ n. n % 2 ^ 16) (total_lem enough);
          },
        )
