-- ===== src/Dns/Name/Spells.antt =====
-- What a name in a message spells, as a relation that knows nothing of buffers, cursors or fuel.
use networking_programming.Base.{ℕ, suc, ◌+◌, ◌≡◌, ◌≢◌, true, false, [], ◌∷◌, ◌++◌}
use networking_programming.Memory.{Bytes, ok, read, slice}
use networking_programming.Dns.Name.{is_pointer, dot}

-- The name at `ptr` spells a text: it ends at a zero byte, a pointer goes on at the place that its
-- second byte names, and a label is followed by a dot unless a zero byte comes next.
pub data Spells (chunk : Bytes) : ℕ → Bytes → Type 0 where
  end : {ptr : ℕ} → read chunk ptr ≡ ok 0 → Spells chunk ptr []
  jump :
      {ptr : ℕ} {flag n : ℕ} {text : Bytes}
      → read chunk ptr ≡ ok flag
      → flag ≢ 0
      → is_pointer flag ≡ true
      → read chunk (ptr + 1) ≡ ok n
      → Spells chunk n text
      → Spells chunk ptr text
  last :
      {ptr : ℕ} {flag : ℕ} {label : Bytes}
      → read chunk ptr ≡ ok flag
      → flag ≢ 0
      → is_pointer flag ≡ false
      → slice chunk (ptr + 1) flag ≡ ok label
      → read chunk (ptr + 1 + flag) ≡ ok 0
      → Spells chunk ptr label
  more :
      {ptr : ℕ} {flag next : ℕ} {label text : Bytes}
      → read chunk ptr ≡ ok flag
      → flag ≢ 0
      → is_pointer flag ≡ false
      → slice chunk (ptr + 1) flag ≡ ok label
      → read chunk (ptr + 1 + flag) ≡ ok next
      → next ≢ 0
      → Spells chunk (ptr + 1 + flag) text
      → Spells chunk ptr (label ++ dot ∷ text)

-- How many rounds and calls it takes to read the name.
unfoldable pub rounds : {chunk : Bytes} {ptr : ℕ} {text : Bytes} → Spells chunk ptr text → ℕ
rounds (end e) = 1
rounds (jump a b c d s) = suc (rounds s)
rounds (last a b c d e) = 2
rounds (more a b c d e f s) = suc (rounds s)
