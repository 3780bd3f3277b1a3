-- ===== src/Ustack/Tests.antt =====
-- The echo server on concrete frames.
use networking_programming.Base.{ℕ, ◌+◌, ◌≤◌, ◌≡◌, refl, some, [], ◌∷◌, ◌++◌, length, arith, Option}
use networking_programming.Base.Words.{htons}
use networking_programming.Memory.{Bytes, ok, slice, patch, splice, overwrite}
use networking_programming.Ustack.{
  Frame, Port, Ipv4Hdr, UdpHdr, Mbuf, answer, learn, burst, rounds, round, is_udp, send,
  encode_udp_pkt,
}
use networking_programming.Ustack.Echo.{IsEcho, answer-IsEcho}
use networking_programming.Ustack.Burst.{udp_indices, positions, burst_frees}

abbrev cksum_ip : Ipv4Hdr → ℕ
cksum_ip h = h.total_length

abbrev cksum_udp : Ipv4Hdr → UdpHdr → Bytes → ℕ
cksum_udp h u b = u.dgram_len

-- A datagram of `d` bytes (`dgram_len` is the word with its bytes swapped) with the text "hi".
abbrev datagram : ℕ → Frame
datagram word = record {
  eth = record { d_addr = 1 ∷ []; s_addr = 2 ∷ []; ether_type = 8 };
  ip = record {
    version_ihl = 0x45;
    type_of_service = 0;
    total_length = 0;
    packet_id = 0;
    fragment_offset = 0;
    time_to_live = 64;
    next_proto_id = 17;
    hdr_checksum = 0;
    src_addr = 20;
    dst_addr = 10;
  };
  udp = record { src_port = 7; dst_port = 9; dgram_len = word; dgram_cksum = 0 };
  payload = b'h' ∷ b'i' ∷ 0 ∷ 0 ∷ [];
}

abbrev arp : Frame
arp = record (datagram 2560) { eth = record { d_addr = []; s_addr = []; ether_type = 1544 } }

abbrev pool : ℕ → Option Frame
pool k = some (record (datagram 0) { payload = 5 ∷ 5 ∷ 5 ∷ [] })

abbrev start : Port
start = record {
  addresses = unfold learn in learn (datagram 0);
  sent = [];
  freed_sent = [];
  freed = [];
}

answer-IsEcho_example :
    (m : Mbuf) × (answer cksum_ip cksum_udp pool 0 (datagram 2560) start
      ≡ ok (
          some (record {
            addresses = learn (datagram 2560);
            sent = m ∷ [];
            freed_sent = 0 ∷ [];
            freed = 0 ∷ [];
          })))
    × IsEcho cksum_ip cksum_udp pool
        (datagram 2560)
        (record (datagram 0) { payload = 5 ∷ 5 ∷ 5 ∷ [] })
        10
        m
unfolding htons
answer-IsEcho_example =
    answer-IsEcho cksum_ip cksum_udp pool 0 (datagram 2560) start refl refl (omega arith)
      (omega arith) (omega arith)

abbrev reply : Mbuf
reply = record {
  pkt_len = 44;
  data_len = 44;
  frame = record {
    eth = record { d_addr = 2 ∷ []; s_addr = 1 ∷ []; ether_type = 8 };
    ip = record {
      version_ihl = 0x45;
      type_of_service = 0;
      total_length = 7680;
      packet_id = 0;
      fragment_offset = 0;
      time_to_live = 64;
      next_proto_id = 17;
      hdr_checksum = 7680;
      src_addr = 10;
      dst_addr = 20;
    };
    udp = record { src_port = 9; dst_port = 7; dgram_len = 2560; dgram_cksum = 2560 };
    payload = b'h' ∷ b'i' ∷ 5 ∷ [];
  };
}

abbrev finish : Port
finish = record {
  addresses = unfold learn in learn (datagram 2560);
  sent = reply ∷ [];
  freed_sent = 0 ∷ [];
  freed = 1 ∷ [];
}

-- The frame that is no IPv4 is not among those freed.
burst_frees_example :
    (1 ∷ [] ≡ [] ++ udp_indices 0 (arp ∷ datagram 2560 ∷ []))
    × (1 ≡ 0 + length (udp_indices 0 (arp ∷ datagram 2560 ∷ [])))
    × (0 ∷ [] ≡ [] ++ positions (length (udp_indices 0 (arp ∷ datagram 2560 ∷ []))) 0)
    × (2 ≤ 128)
unfolding burst rounds round is_udp answer send encode_udp_pkt learn htons slice patch splice
    overwrite
burst_frees_example =
    burst_frees cksum_ip cksum_udp pool (arp ∷ datagram 2560 ∷ []) start finish refl
