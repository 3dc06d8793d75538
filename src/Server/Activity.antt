-- ===== src/Server/Activity.antt =====
-- The count of active requests of cmd/autoscan-server/idle.go, and the bounded buffer and the
-- escapes of internal/engine/executor.go. Times are numbers; the clock is an argument.
pub mod Laws
use aut_oscan_engine.Prelude.{
  ℕ, zero, suc, ◌+◌, ◌-◌, Bool, true, false, ◌&&◌, List, [], ◌∷◌, ◌++◌, ltb, leb, ◌==◌,
  if◌then◌else◌, length, take,
}
use aut_oscan_engine.Prelude.Text.{Bytes, codes}

pub record Activity : Type 0 where
  pub active : ℕ
  pub last_done : ℕ

unfoldable pub new_activity : ℕ → Activity
new_activity now = record { active = 0; last_done = now }

unfoldable pub begin : Activity → Activity
begin a = record a { active = a.active + 1 }

-- An end follows a begin, so the count does not fall below 0.
unfoldable pub end : ℕ → Activity → Activity
end now a = record { active = a.active - 1; last_done = now }

unfoldable pub idle_for : ℕ → Activity → ℕ
idle_for now a = if ltb 0 a.active then 0 else now - a.last_done

-- What a tick of `exitWhenIdle` decides.
unfoldable pub exits : ℕ → ℕ → Activity → Bool
unfolding idle_for
exits timeout now a = leb timeout (idle_for now a)

pub record CappedBuffer : Type 0 where
  pub buf : Bytes
  pub limit : ℕ
  pub truncated : Bool

-- The buffer and the number of bytes that are reported as written.
unfoldable pub write : Bytes → CappedBuffer → CappedBuffer × ℕ
write p c =
    let room = c.limit - length c.buf in
    (
      if ltb 0 room
          then (if ltb room (length p)
              then record c { buf = c.buf ++ take room p; truncated = true }
              else record c { buf = c.buf ++ p })
          else if ltb 0 (length p)
          then record c { truncated = true }
          else c,
      length p,
    )

unfoldable pub write_all : List Bytes → CappedBuffer → CappedBuffer
unfolding write
write_all [] c = c
write_all (p ∷ ps) c = write_all ps (write p c).0

unfoldable pub captured : CappedBuffer → Bytes
captured c = if c.truncated then c.buf ++ (10 ∷ codes "... [output truncated]") else c.buf

-- strings.ReplaceAll of a backslash and the letter `letter` by the byte `code`.
unfoldable pub replace_escape : ℕ → ℕ → Bytes → Bytes
replace_escape letter code [] = []
replace_escape letter code (c ∷ []) = c ∷ []
replace_escape letter code (c ∷ d ∷ s) =
    let here = replace_escape letter code (d ∷ s) in
    let past = replace_escape letter code s in
    if c == 92 && d == letter then code ∷ past else c ∷ here

unfoldable pub unescape_input : Bytes → Bytes
unfolding replace_escape
unescape_input s = replace_escape 114 13 (replace_escape 116 9 (replace_escape 110 10 s))
