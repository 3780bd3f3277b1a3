-- ===== src/Dns/Name.antt =====
-- async_dns_client_noblock.c: `is_pointer` and `dns_parse_name`, which reads a compressed name of a
-- message into a text. Name/Spells says what a name spells; Name/Complete and Name/Sound
-- compare the function with it.
pub mod Spells
mod Rounds
pub mod Complete
pub mod Sound
pub mod Encoded
pub mod Loops
use Prim.Native.Nat.{bit_and}
use networking_programming.Base.{ℕ, zero, suc, ◌+◌, Bool, [], ◌∷◌, ◌==◌, if◌then◌else◌}
use networking_programming.Memory.{Bytes, Outcome, ok, timeout, ◌>>=◌, read, slice, patch}

unfoldable pub is_pointer : ℕ → Bool
is_pointer byte = bit_and byte 0xC0 == 0xC0

abbrev pub dot : ℕ
dot = b'.'

-- The loop of `dns_parse_name` on fuel: `ptr - chunk`, `pos - out`, the array `out`, `*len`. A
-- pointer makes the recursive call, which begins at `out + *len`, and then the loop is left.
unfoldable pub name_loop : ℕ → Bytes → ℕ → ℕ → Bytes → ℕ → Outcome (Bytes × ℕ)
name_loop zero chunk ptr pos out len = timeout
name_loop (suc fuel) chunk ptr pos out len = read chunk ptr >>= λ flag.
    let jump = read chunk (ptr + 1) >>= λ n. name_loop fuel chunk n len out len in
    let label = slice chunk (ptr + 1) flag >>= λ bytes. patch out pos bytes >>= λ copied.
    read chunk (ptr + 1 + flag) >>= λ next.
    (if next == 0 then ok copied else patch copied (pos + flag) (dot ∷ [])) >>= λ dotted.
    let step : ℕ = if next == 0 then flag else flag + 1 in
    name_loop fuel chunk (ptr + 1 + flag) (pos + step) dotted (len + step) in
    if flag == 0 then ok (out, len) else if is_pointer flag then jump else label

-- `dns_parse_name`: the array `out` and `*len` when it returns.
unfoldable pub parse_name : ℕ → Bytes → ℕ → Bytes → ℕ → Outcome (Bytes × ℕ)
unfolding name_loop
parse_name fuel chunk ptr out len = name_loop fuel chunk ptr len out len
