-- ===== src/Pcap/Shim/Closing.antt =====
-- What `close` does to a shim, whichever way it goes.
use aionetiface.Prelude.{ℕ, ◌≡◌, refl, sym, ap, ◌∙◌, Bool, true, false, ◌&&◌, Option, none, some}
use aionetiface.Prelude.{List, [], ◌∷◌, ◌++◌, drop, append-nil, if_cases, if_both, if◌then◌else◌}
use mathlib.Core.Path.{subst}
use aionetiface.Pipe.Client.{is_full, do_add}
use aionetiface.Pcap.Shim.{
  max_queue, Item, Table, Shim, Ending, ended, failed, cancelled, close, finish_close,
}
use aionetiface.Pcap.Shim.{end_all, broadcast_close_sentinel, stop_pump, stop_watcher}
use aionetiface.Pcap.Shim.{tear_down_with, close_connection}

-- Any number of calls of `close`, and what the connection's own `close` comes to in each.
abbrev pub close_all : Shim → List Ending → Shim
close_all self [] = self
close_all self (ending ∷ endings) = close_all (close self ending).1 endings

abbrev ends_queue : List Item → Bool
ends_queue [] = false
ends_queue (none ∷ []) = true
ends_queue (some item ∷ []) = false
ends_queue (item ∷ next ∷ items) = ends_queue (next ∷ items)

-- The last item of each queue is the sentinel.
abbrev pub all_woken : Table → Bool
all_woken [] = true
all_woken ((key, entry) ∷ rest) = ends_queue entry.queue && all_woken rest

abbrev pub teardown_calls : Option ℕ → List ℕ
teardown_calls none = []
teardown_calls (some called) = called ∷ []

-- The state after `close`, from the one before.
pub record IsShut (before after : Shim) : Type 0 where
  pub calls : after.torn_down ≡ before.torn_down ++ teardown_calls before.firewall_teardown
  pub spent : after.firewall_teardown ≡ none
  pub shut : after.closed ≡ true
  pub stopped : after.is_running ≡ false
  pub signalled : after.on_close ≡ true
  pub unpumped : after.is_pumping ≡ false
  pub woken : all_woken after.subs ≡ true

ends_queue-snoc : (items : List Item) → ends_queue (items ++ none ∷ []) ≡ true
ends_queue-snoc [] = refl
ends_queue-snoc (none ∷ []) = refl
ends_queue-snoc (some item ∷ []) = refl
ends_queue-snoc (none ∷ next ∷ items) = ends_queue-snoc (next ∷ items)
ends_queue-snoc (some item ∷ next ∷ items) = ends_queue-snoc (next ∷ items)

do_add-ends_queue : (limit : ℕ) (items : List Item) → ends_queue (do_add limit none items) ≡ true
unfolding do_add
do_add-ends_queue limit items =
    ends_queue-snoc (if is_full limit items then drop 1 items else items)

end_all-all_woken : (subs : Table) → all_woken (end_all subs) ≡ true
end_all-all_woken [] = refl
end_all-all_woken ((key, entry) ∷ rest) =
    rw (do_add-ends_queue max_queue entry.queue, end_all-all_woken rest)

-- What holds when the tasks are stopped and the teardown is still to come.
record IsStopped (before now : Shim) : Type 0 where
  same_calls : now.torn_down ≡ before.torn_down
  same_teardown : now.firewall_teardown ≡ before.firewall_teardown
  is_shut_off : now.closed ≡ true
  is_idle : now.is_running ≡ false
  is_quiet : now.is_pumping ≡ false

stop_pump-IsStopped :
    (self : Shim) → IsStopped self (stop_pump (record self { closed = true; is_running = false }))
unfolding broadcast_close_sentinel
stop_pump-IsStopped self =
    if_cases (λ (now : Shim). IsStopped self now) self.is_pumping
      (λ pumping. record {
        same_calls = refl;
        same_teardown = refl;
        is_shut_off = refl;
        is_idle = refl;
        is_quiet = refl;
      })
      (λ quiet. record {
        same_calls = refl;
        same_teardown = refl;
        is_shut_off = refl;
        is_idle = refl;
        is_quiet = quiet;
      })

stop_watcher-IsStopped :
    {before now : Shim} → IsStopped before now → IsStopped before (stop_watcher now)
stop_watcher-IsStopped {before} {now} stopped =
    if_both (λ (after : Shim). IsStopped before after) now.is_watched
      (record {
        same_calls = stopped.same_calls;
        same_teardown = stopped.same_teardown;
        is_shut_off = stopped.is_shut_off;
        is_idle = refl;
        is_quiet = stopped.is_quiet;
      })
      stopped

tear_down-IsShut :
    (before woken : Shim) (set : Option ℕ)
    → before.firewall_teardown ≡ set
    → IsStopped before woken
    → woken.on_close ≡ true
    → all_woken woken.subs ≡ true
    → IsShut before (tear_down_with woken set)
tear_down-IsShut before woken none known stopped signal waking = record {
  calls = rw (known, append-nil before.torn_down) stopped.same_calls;
  spent = stopped.same_teardown ∙ known;
  shut = stopped.is_shut_off;
  stopped = stopped.is_idle;
  signalled = signal;
  unpumped = stopped.is_quiet;
  woken = waking;
}
tear_down-IsShut before woken (some called) known stopped signal waking = record {
  calls = rw (known, stopped.same_calls);
  spent = refl;
  shut = stopped.is_shut_off;
  stopped = stopped.is_idle;
  signalled = signal;
  unpumped = stopped.is_quiet;
  woken = waking;
}

finish_close-IsShut : {before now : Shim} → IsStopped before now → IsShut before (finish_close now)
unfolding finish_close broadcast_close_sentinel
finish_close-IsShut {before} {now} stopped =
    let woken : Shim = record now { subs = end_all now.subs; on_close = true } in
    let ready : IsStopped before woken = record {
      same_calls = stopped.same_calls;
      same_teardown = stopped.same_teardown;
      is_shut_off = stopped.is_shut_off;
      is_idle = stopped.is_idle;
      is_quiet = stopped.is_quiet;
    } in
    tear_down-IsShut before woken now.firewall_teardown (sym stopped.same_teardown) ready refl
      (end_all-all_woken now.subs)

close_connection-IsShut :
    (before now : Shim) (ending : Ending)
    → IsStopped before now
    → IsShut before (close_connection ending now).1
close_connection-IsShut before now cancelled stopped = finish_close-IsShut stopped
close_connection-IsShut before now ended stopped =
    finish_close-IsShut (stop_watcher-IsStopped stopped)
close_connection-IsShut before now failed stopped =
    finish_close-IsShut (stop_watcher-IsStopped stopped)

close-IsShut :
    (self : Shim) (ending : Ending) → self.closed ≡ false → IsShut self (close self ending).1
unfolding close
close-IsShut self ending h =
    subst
      (λ (test : Bool).
        IsShut self
          (if test
            then (false, self)
            else close_connection ending
                (stop_pump (record self { closed = true; is_running = false }))).1)
      (sym h)
      (close_connection-IsShut self (stop_pump (record self { closed = true; is_running = false }))
        ending (stop_pump-IsStopped self))

close_again : (self : Shim) (ending : Ending) → self.closed ≡ true → (close self ending).1 ≡ self
unfolding close
close_again self ending h =
    ap
      (λ (test : Bool).
        (if test
          then (false, self)
          else close_connection ending
              (stop_pump (record self { closed = true; is_running = false }))).1)
      h

close_all_again :
    (self : Shim) (endings : List Ending) → self.closed ≡ true → close_all self endings ≡ self
close_all_again self [] h = refl
close_all_again self (ending ∷ endings) h =
    ap (λ (next : Shim). close_all next endings) (close_again self ending h)
    ∙ close_all_again self endings h

-- However often an open shim is closed, and whether the connection's `close` ends, fails or is
-- cancelled each time: the teardown of the firewall is called exactly once, if there is one, the
-- pump is stopped, `on_close` is set, and the last item of every queue is the sentinel.
pub close_all-IsShut :
    (self : Shim) (ending : Ending) (endings : List Ending)
    → self.closed ≡ false
    → IsShut self (close_all self (ending ∷ endings))
close_all-IsShut self ending endings h =
    let first = close-IsShut self ending h in
    subst (λ (after : Shim). IsShut self after)
      (sym (close_all_again (close self ending).1 endings first.shut)) first
