-- ===== src/Dns/Tests.antt =====
-- The DNS functions at concrete inputs.
use networking_programming.Base.{
  ℕ, ◌+◌, ◌≡◌, refl, true, none, some, [], ◌∷◌, ◌++◌, length, arith, replicate, map,
}
use mathlib.Core.Option.{Option}
use networking_programming.Base.Int.{pos}
use networking_programming.Base.Words.{htons}
use networking_programming.Memory.{Bytes, ok, timeout, read, slice, patch, splice, overwrite}
use networking_programming.Dns.Request.{
  zero_question, zero_header, create_question, create_header, build_request,
}
use networking_programming.Dns.Request.Tokens.{encode, join}
use networking_programming.Dns.Request.Layout.{question_of, create_question-join}
use networking_programming.Dns.Request.Build.{build_request_lem, request_bytes}
use networking_programming.Dns.Name.{is_pointer, parse_name}
use networking_programming.Dns.Name.Spells.{Spells, jump, last, more, rounds}
use networking_programming.Dns.Name.Complete.{parse_name_complete}
use networking_programming.Dns.Name.Sound.{parse_name_sound}
use networking_programming.Dns.Name.Loops.{parse_name_self_pointer}
use networking_programming.Dns.Response.{parse_answer, parse_response, net_short, answer_data}
use networking_programming.Dns.Response.Reply.{HostRecord, found, reply_bytes, parse_response-reply}
use networking_programming.Dns.Response.Cursor.{Moved, parse_answer_moves}

-- "ab.c"
abbrev label_ab : Bytes
label_ab = b'a' ∷ b'b' ∷ []

abbrev label_c : Bytes
label_c = b'c' ∷ []

abbrev host : Bytes
host = b'a' ∷ b'b' ∷ b'.' ∷ b'c' ∷ []

abbrev wire : Bytes
wire = 2 ∷ b'a' ∷ b'b' ∷ 1 ∷ b'c' ∷ 0 ∷ []

-- Blocks as `malloc` may give them: not zeroed.
abbrev junk : ℕ → Option Bytes
junk n = some (replicate n 7)

abbrev copy : Bytes → Option Bytes
copy s = some s

create_question_runs :
    create_question junk copy (some zero_question) host ≡ ok (pos 0, some (question_of 4 wire))
unfolding create_question patch splice overwrite htons
create_question_runs = refl

create_header_runs :
    create_header 70000 (some zero_header)
    ≡ (pos 0, some (record zero_header { id = 4464; flags = 1; qdcount = 256 }))
unfolding create_header htons
create_header_runs = refl

create_question-join_example :
    create_question junk copy (some zero_question) host ≡ ok (pos 0, some (question_of 4 wire))
unfolding join encode
create_question-join_example =
    create_question-join junk copy zero_question host refl refl refl label_ab (label_c ∷ [])
      ((cc, omega arith, omega arith), ((cc, omega arith, omega arith), tt)) refl

build_request_lem_example :
    build_request zero_header (question_of 4 wire) (replicate 1024 0)
    ≡ ok (22, splice (replicate 1024 0) 0 (request_bytes zero_header (question_of 4 wire) wire))
build_request_lem_example =
    build_request_lem zero_header (question_of 4 wire) refl refl (replicate 1024 0)

-- "ab.c" at 0, and a pointer to it at 6.
abbrev chunk : Bytes
chunk = wire ++ 0xC0 ∷ 0 ∷ []

spelt : Spells chunk 6 host
unfolding read slice is_pointer
spelt = jump refl (omega arith) refl refl direct
  where
    direct : Spells chunk 0 (label_ab ++ b'.' ∷ label_c)
    direct =
        more refl (omega arith) refl refl refl (omega arith)
          (last refl (omega arith) refl refl refl)

parse_name_complete_example :
    parse_name 4 chunk 6 (replicate 8 0) 1 ≡ ok (splice (replicate 8 0) 1 host, 5)
unfolding spelt rounds
parse_name_complete_example =
    parse_name_complete chunk spelt 4 (replicate 8 0) 1 (omega arith) (omega arith)

parse_name_sound_example :
    (text : Bytes) × Spells chunk 6 text
    × (0 ∷ b'a' ∷ b'b' ∷ b'.' ∷ b'c' ∷ 0 ∷ 0 ∷ 0 ∷ [] ≡ splice (replicate 8 0) 1 text)
    × (5 ≡ 1 + length text)
unfolding parse_name read slice patch splice is_pointer
parse_name_sound_example = parse_name_sound chunk 4 6 (replicate 8 0) 1 refl

parse_name_self_pointer_example : parse_name 100 (0xC0 ∷ 0 ∷ []) 0 (replicate 8 0) 0 ≡ timeout
unfolding read is_pointer
parse_name_self_pointer_example =
    parse_name_self_pointer (0xC0 ∷ 0 ∷ []) refl (omega arith) refl refl 100 (replicate 8 0) 0

abbrev answer : HostRecord
answer = record { t3 = 0; t2 = 1; t1 = 2; t0 = 3; address = 10 ∷ 0 ∷ 0 ∷ 1 ∷ [] }

abbrev ntop : Bytes → Bytes
ntop address = address

parse_response-reply_example :
    parse_response ntop
      (λ _. true)
      5
      (reply_bytes 9 9 0 0 (label_ab ∷ label_c ∷ []) (answer ∷ answer ∷ []) (0 ∷ []))
    ≡ ok (pos 2, some (map (found ntop (join (label_ab ∷ label_c ∷ []))) (answer ∷ answer ∷ [])))
unfolding join
parse_response-reply_example =
    parse_response-reply ntop (λ _. true) 5 9 9 0 0 label_ab (label_c ∷ []) (answer ∷ answer ∷ [])
      (0 ∷ []) (record { short = omega arith; fits = omega arith; plain = omega arith })
      (omega arith) (omega arith) (omega arith) (λ k. refl)

-- A record of type 28 with 16 bytes of data.
abbrev ipv6_reply : Bytes
ipv6_reply = 0 ∷ 0 ∷ 0 ∷ 28 ∷ 0 ∷ 1 ∷ 0 ∷ 0 ∷ 0 ∷ 9 ∷ 0 ∷ 16 ∷ []

-- The cursor stands at the record's data, not behind them.
parse_answer_moves_example : Moved ipv6_reply 0 12
unfolding parse_answer answer_data parse_name net_short read htons
parse_answer_moves_example = parse_answer_moves ntop (λ _. true) 3 ipv6_reply 0 0 12 none refl
