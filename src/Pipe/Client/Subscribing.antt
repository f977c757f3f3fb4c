-- ===== src/Pipe/Client/Subscribing.antt =====
-- Subscribing and unsubscribing.
use aionetiface.Prelude.{ℕ, ◌≡◌, refl, Option, none, List, [], ◌∷◌, ◌++◌}
use aionetiface.Prelude.{Bool, true, false, ◌==◌, missed, if◌then◌else◌}
use aionetiface.Pipe.Client.{Library, Sub, Entry, PipeClient, hash_sub, norm_sub, find_sub}
use aionetiface.Pipe.Client.{remove_sub, subscribe, unsubscribe}

cons_if :
    (test : Bool) (first : ℕ × Entry) (kept more : List (ℕ × Entry))
    → first ∷ (if test then kept else more) ≡ (if test then first ∷ kept else first ∷ more)
cons_if true first kept more = refl
cons_if false first kept more = refl

with_subs :
    (test : Bool) (self : PipeClient) (added : List (ℕ × Entry))
    → record self { subs = if test then self.subs else added }
      ≡ (if test then self else record self { subs = added })
with_subs true self added = refl
with_subs false self added = refl

-- The last entry under a key that no other has is removed, and no other is.
remove_last :
    (offset key : ℕ) (entry : Entry) (subs : List (ℕ × Entry))
    → find_sub offset subs ≡ none
    → remove_sub offset (subs ++ (key, entry) ∷ [])
      ≡ (if key == offset then subs else subs ++ (key, entry) ∷ [])
remove_last offset key entry [] absent = refl
remove_last offset key entry ((other, known) ∷ subs) absent =
    let (differs, deeper) = missed (other == offset) known (find_sub offset subs) absent in
    rw (differs, remove_last offset key entry subs deeper)
      (cons_if (key == offset) (other, known) subs (subs ++ (key, entry) ∷ []))

-- Unsubscribing undoes a new subscription exactly when the hash of the subscription is the hash
-- of its canonical form. Otherwise the subscription stays, since `unsubscribe` does not take the
-- canonical form as `subscribe` does. Neither hash is that of another subscription.
pub unsubscribe-subscribe :
    (lib : Library) (self : PipeClient) (wanted : Sub) (on_message : Option ℕ)
    → find_sub (hash_sub lib (norm_sub lib wanted)) self.subs ≡ none
    → find_sub (hash_sub lib wanted) self.subs ≡ none
    → unsubscribe lib (subscribe lib self wanted on_message).1 wanted ≡ (
        if hash_sub lib (norm_sub lib wanted) == hash_sub lib wanted
        then self
        else (subscribe lib self wanted on_message).1)
unfolding subscribe unsubscribe
unsubscribe-subscribe lib self wanted on_message fresh absent =
    let chosen = norm_sub lib wanted in
    let entry : Entry = record { sub = chosen; queue = []; handler = on_message } in
    let key = hash_sub lib chosen in
    rw (fresh, remove_last (hash_sub lib wanted) key entry self.subs absent)
      (with_subs (key == hash_sub lib wanted) self (self.subs ++ (key, entry) ∷ []))
