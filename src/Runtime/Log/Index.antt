-- ===== src/Runtime/Log/Index.antt =====
-- The indices of the messages in the log.
use cloudeagent.Prelude.{
  ℕ, zero, suc, ◌≤◌, sym, take, ◌+◌, ◌≡◌, refl, Option, none, some, [], ◌∷◌, ◌++◌, Text, arith, inl,
  inr, ◌⊎◌, ap,
}
use mathlib.Core.List.{append-nil}
use cloudeagent.Types.{Err, ok, err}
use cloudeagent.Runtime.Log.{
  Entry, Disk, Json, WriteError, not_opened, cut_short, content_of, read_log, write_line,
  count_newlines, message_index, append_log,
}

pub count_newlines-append :
    (s t : Text) → count_newlines (s ++ t) ≡ count_newlines s + count_newlines t
unfolding count_newlines
count_newlines-append [] t = omega arith
count_newlines-append (c ∷ s) t = ground (arith, count_newlines-append s t)

count_newlines-take : (n : ℕ) (s : Text) → count_newlines (take n s) ≤ count_newlines s
unfolding count_newlines
count_newlines-take zero s = omega arith
count_newlines-take (suc n) [] = omega arith
count_newlines-take (suc n) (c ∷ s) = ground (arith, count_newlines-take n s)

-- The index that is returned is that of the log which is left, one more than before; or an error is,
-- and the log has at most gained a part of a line.
abbrev pub Indexed : Json → Entry → Disk → Type 0
Indexed json entry d =
    let after = (append_log json entry d).1 in
    ((n : ℕ) × (message_index d ≡ ok n)
      × ((append_log json entry d).0 ≡ ok (suc n))
      × (message_index after ≡ ok (suc n)))
    ⊎ ((e : Err) × (part : Text) × ((append_log json entry d).0 ≡ err e)
        × (content_of after.log ≡ content_of d.log ++ part)
        × (count_newlines part ≤ 1))

indexed :
    (json : Json) (entry : Entry) (log : Option Text) (r : Option Err) (w : Option WriteError)
    → ((e : Entry) → count_newlines (json.encode e) ≡ 0)
    → Indexed json entry (record { log = log; read_error = r; write_error = w })
unfolding append_log write_line message_index read_log count_newlines
indexed json entry log (some x) w plain =
    inr (x, [], refl, sym (append-nil (content_of log)), omega arith)
indexed json entry log none (some (not_opened x)) plain =
    inr (x, [], refl, sym (append-nil (content_of log)), omega arith)
indexed json entry log none (some (cut_short k x)) plain =
    let own = record entry { index = suc (count_newlines (content_of log)) } in
    let line = json.encode own ++ 10 ∷ [] in
    let few : count_newlines (take k line) ≤ 1 = omega (
      arith,
      count_newlines-take k line,
      count_newlines-append (json.encode own) (10 ∷ []),
      plain own,
    ) in
    inr (x, take k line, refl, refl, few)
indexed json entry log none none plain =
    let n = count_newlines (content_of log) in
    let line = json.encode (record entry { index = suc n }) in
    let grown : count_newlines (content_of log ++ (line ++ 10 ∷ [])) ≡ suc n = omega (
      arith,
      count_newlines-append (content_of log) (line ++ 10 ∷ []),
      count_newlines-append line (10 ∷ []),
      plain (record entry { index = suc n }),
    ) in
    inl (n, refl, refl, ap ok grown)

-- Where no encoding holds a newline, and no other call comes in between: `appendLog` returns one more
-- than the number of lines in the log before, and this is the number of lines in it after; or it
-- returns an error, and the log holds what it did, with at most a part of one line after it.
pub append_log_index :
    (json : Json) (entry : Entry) (d : Disk)
    → ((e : Entry) → count_newlines (json.encode e) ≡ 0)
    → Indexed json entry d
append_log_index json entry d plain = indexed json entry d.log d.read_error d.write_error plain
