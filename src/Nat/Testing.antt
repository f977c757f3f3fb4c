-- ===== src/Nat/Testing.antt =====
-- The NAT test of aionetiface/nic/nat/nat_test.py. What the servers and the clock do is a list of
-- the workers that came back in each of the two phases, in that order. A phase that its time ends
-- is one with fewer of them, and workers of the first phase may come back in the second, since
-- nothing cancels them. An address is the number that `ip_f` makes of its text.
pub mod Kinds
pub mod Verdict
pub mod Range
mod Runs
use aionetiface.Prelude.{ℕ, zero, suc, Bool, true, false, not, ◌&&◌, ◌||◌, Option, none, some}
use aionetiface.Prelude.{List, [], ◌∷◌, ◌++◌, get_elem?, ◌==◌, if◌then◌else◌}
use aionetiface.Nat.{open_internet, full_cone, restrict_nat, restrict_port_nat}

abbrev pub symmetric_nat : ℕ
symmetric_nat = 6

abbrev pub no_reply_nat : ℕ
no_reply_nat = 7

pub data Test : Type 0 where
  test_one test_two test_three test_four : Test

-- Of the dict of a reply, the mapped address: `rip` and `rport`.
pub record Mapped : Type 0 where
  pub rip : ℕ
  pub rport : ℕ

-- A worker that came back: its test, and its reply, `none` where there was none or an exception.
pub data Event : Type 0 where
  came : Test → Option Mapped → Event

-- `q_list`
pub record QList : Type 0 where
  pub q1 : List Mapped
  pub q2 : List Mapped
  pub q3 : List Mapped
  pub q4 : List Mapped
  pub verdict : ℕ

abbrev pub no_replies : QList
no_replies = record { q1 = []; q2 = []; q3 = []; q4 = []; verdict = symmetric_nat }

abbrev pub same_mapping : List Mapped → List Mapped → Bool
same_mapping (a ∷ q1) (b ∷ q3) = a.rport == b.rport && a.rip == b.rip
same_mapping _ _ = false

unfoldable pub non_symmetric_check : QList → Bool
non_symmetric_check q_list = same_mapping q_list.q1 q_list.q3

abbrev pub is_nil : List Mapped → Bool
is_nil [] = true
is_nil (m ∷ ms) = false

unfoldable pub no_stun_resp_check : QList → Bool
no_stun_resp_check q = is_nil q.q1 && is_nil q.q2 && is_nil q.q3 && is_nil q.q4

-- `q.append(ret)`
abbrev pub append_reply : Test → Mapped → QList → QList
append_reply test_one m q = record q { q1 = q.q1 ++ (m ∷ []) }
append_reply test_two m q = record q { q2 = q.q2 ++ (m ∷ []) }
append_reply test_three m q = record q { q3 = q.q3 ++ (m ∷ []) }
append_reply test_four m q = record q { q4 = q.q4 ++ (m ∷ []) }

-- The functions of the four tests, and what is left of `q_list`.
unfoldable pub test_coro : ℕ → Test → Mapped → QList → Option ℕ × QList
test_coro source_ip test_one m q = (if m.rip == source_ip then some open_internet else none, q)
test_coro source_ip test_two m q =
    (if m.rip == source_ip then some open_internet else some full_cone, q)
test_coro source_ip test_three m q =
    (none, if non_symmetric_check q then record q { verdict = restrict_port_nat } else q)
test_coro source_ip test_four m q = (some restrict_nat, q)

unfoldable pub nat_test_exec : ℕ → Test → Option Mapped → QList → Option ℕ × QList
nat_test_exec source_ip test none q = (none, q)
nat_test_exec source_ip test (some m) q = test_coro source_ip test m (append_reply test m q)

abbrev pub is_first_phase : Test → Bool
is_first_phase test_one = true
is_first_phase test_two = true
is_first_phase test_three = false
is_first_phase test_four = false

-- The result of a late worker goes nowhere.
abbrev pub result_in : Bool → Test → Option ℕ → Option ℕ
result_in true test result = result
result_in false test result = if is_first_phase test then none else result

-- `for task in asyncio.as_completed(...)`: the first result ends the test. The flag tells the first
-- phase.
abbrev pub or_next : Option ℕ → QList → Option ℕ × QList → Option ℕ × QList
or_next none q next = next
or_next (some kind) q next = (some kind, q)

unfoldable pub run_phase : Bool → ℕ → List Event → QList → Option ℕ × QList
run_phase first source_ip [] q = (none, q)
run_phase first source_ip (came test reply ∷ events) q =
    let done = nat_test_exec source_ip test reply q in
    or_next (result_in first test done.0) done.1 (run_phase first source_ip events done.1)

-- After both phases without a result.
abbrev pub last_verdict : QList → ℕ
last_verdict q = if no_stun_resp_check q then no_reply_nat else q.verdict

abbrev pub finish_test : Option ℕ × QList → ℕ
finish_test (some kind, q) = kind
finish_test (none, q) = last_verdict q

abbrev pub second_phase : ℕ → List Event → Option ℕ × QList → ℕ
second_phase source_ip events (some kind, q) = kind
second_phase source_ip events (none, q) = finish_test (run_phase false source_ip events q)

unfoldable pub fast_nat_test : ℕ → List Event → List Event → ℕ
fast_nat_test source_ip first second =
    second_phase source_ip second (run_phase true source_ip first no_replies)

-- A server as the address and port of its four entries, and a row of `NAT_TEST_SCHEMA`: whether
-- the server is to change its address and its port, and the entries for the request and the reply.
pub data Change : Type 0 where
  change_none change_port change_both : Change

pub record Row : Type 0 where
  pub payload : Change
  pub send_ip : ℕ
  pub send_port : ℕ
  pub reply_ip : ℕ
  pub reply_port : ℕ

abbrev pub row : Change → ℕ → ℕ → ℕ → ℕ → Row
row change a b c d = record {
  payload = change;
  send_ip = a;
  send_port = b;
  reply_ip = c;
  reply_port = d;
}

abbrev pub nat_test_schema : Test → Row
nat_test_schema test_one = row change_none 0 0 0 0
nat_test_schema test_two = row change_both 0 0 3 3
nat_test_schema test_three = row change_none 2 2 2 0
nat_test_schema test_four = row change_port 2 2 3 3

-- The address that a request goes to, and the one that is named for the reply.
abbrev pub worker_addrs : (ℕ → ℕ × ℕ) → Test → (ℕ × ℕ) × (ℕ × ℕ)
worker_addrs server test =
    let r = nat_test_schema test in
    (
      ((server r.send_ip).0, (server r.send_port).1),
      ((server r.reply_ip).0, (server r.reply_port).1),
    )

-- The address that a reply is taken from: `get_stun_reply` waits for the server that was asked,
-- `get_change_port_reply` for its address with the other port, `get_change_tup_reply` for the other.
abbrev pub expected_from : Change → (ℕ × ℕ) × (ℕ × ℕ) → ℕ × ℕ
expected_from change_none (dest, reply) = dest
expected_from change_port (dest, reply) = (dest.0, reply.1)
expected_from change_both (dest, reply) = reply

unfoldable pub reply_source : (ℕ → ℕ × ℕ) → Test → ℕ × ℕ
reply_source server test = expected_from (nat_test_schema test).payload (worker_addrs server test)
