-- ===== src/Rabbit/Declaring.antt =====
-- A publish declares its exchange before it publishes to it, and only the first one does.
use stratae.Prelude.{
  ℕ, Bool, true, false, Option, none, some, List, [], ◌∷◌, ◌==◌, ◌≡◌, refl, sym, ==_refl,
  if◌then◌else◌, ◌∙◌, Bool-cases, inl, inr,
}
use stratae.Python.{Text, Exc, Outcome, returned, raised}
use stratae.Python.Dict.{Dict}
use stratae.Events.Envelope.{Codec, Envelope}
use stratae.Rabbit.{Properties, stamp}
use stratae.Rabbit.Publisher.{
  Target, Event, declares, prepares, publishes, loses, Answer, taken, unroutable, refuses,
  Connection, connected, reconnecting, closed, Publisher, Change, opens, drops, new_publisher,
  among, publish, change, on_encoded, publish_connected, declare_exchange, on_drop, Preparation,
  prepared, refused_before, refused, refused_after, given_up, noted, on_prepared, declare_topology,
  on_open,
}

-- Whether a publish has had an exchange declared since the connection was last lost.
abbrev pub is_declared : Text → List Event → Bool
is_declared x [] = false
is_declared x (declares y true ∷ log) = if x == y then true else is_declared x log
is_declared x (declares y false ∷ log) = is_declared x log
is_declared x (prepares y b ∷ log) = is_declared x log
is_declared x (publishes target q body b ∷ log) = is_declared x log
is_declared x (loses ∷ log) = false

-- A target with a type has its exchange declared.
abbrev pub IsReady : Target → Option Text → List Event → Type 0
IsReady target none log = Unit {0}
IsReady target (some type) log = is_declared target.exchange log ≡ true

-- Nothing is published to a typed exchange before a publish's declaration of it, and no publish
-- declares it again. The topology declares what it has, whatever else is declared.
abbrev pub IsOrdered : List Event → Type 0
IsOrdered [] = Unit {0}
IsOrdered (declares x b ∷ log) = (is_declared x log ≡ false) × IsOrdered log
IsOrdered (prepares x b ∷ log) = IsOrdered log
IsOrdered (publishes target q body b ∷ log) =
    IsReady target target.exchange_type log × IsOrdered log
IsOrdered (loses ∷ log) = IsOrdered log

-- A publish with all that it is given, or a change of the connection.
pub data Op : Type 0 where
  sends : Envelope → Dict Text → Target → Outcome ℕ → Option Exc → Answer → Op
  changes : Change → Op

abbrev IsIdle : Connection → List Text → Type 0
IsIdle connected declared = Unit {0}
IsIdle reconnecting declared = declared ≡ []
IsIdle closed declared = declared ≡ []

record IsKept (p : Publisher) : Type 0 where
  idle : IsIdle p.connection p.declared
  known : (x : Text) → among x p.declared ≡ is_declared x p.log
  ordered : IsOrdered p.log

on_encoded-IsKept :
    (target : Target) (q : Properties) (body : Outcome ℕ) (answer : Answer) (p : Publisher)
    → IsReady target target.exchange_type p.log
    → IsKept p
    → IsKept (on_encoded target q body answer p).1
on_encoded-IsKept target q (raised e) answer p ready k = k
on_encoded-IsKept target q (returned body) taken p ready k = record {
  idle = k.idle;
  known = k.known;
  ordered = (ready, k.ordered);
}
on_encoded-IsKept target q (returned body) unroutable p ready k = record {
  idle = k.idle;
  known = k.known;
  ordered = (ready, k.ordered);
}
on_encoded-IsKept target q (returned body) (refuses e) p ready k = record {
  idle = k.idle;
  known = k.known;
  ordered = (ready, k.ordered);
}

declare-IsKept :
    (target : Target) (q : Properties) (body : Outcome ℕ) (to_declare : Option Exc)
    (answer : Answer) (type : Option Text) (p : Publisher)
    → target.exchange_type ≡ type
    → p.connection ≡ connected
    → IsKept p
    → IsKept
        (declare_exchange (on_encoded target q body answer) target.exchange to_declare type p).1
declare-IsKept target q body to_declare answer none p t on k =
    on_encoded-IsKept target q body answer p (rw t tt) k
declare-IsKept target q body none answer (some type) p t on k =
    elim (Bool-cases (among target.exchange p.declared)) [
      | inl i ↦
          rw i
            (on_encoded-IsKept target q body answer p (rw t (sym (k.known target.exchange) ∙ i)) k)
      | inr i ↦ rw i (
          on_encoded-IsKept target q body answer
            (record p {
              declared = target.exchange ∷ p.declared;
              log = declares target.exchange true ∷ p.log;
            })
            (rw (t, ==_refl target.exchange) refl)
            (record {
              idle = rw on tt;
              known = λ x. rw (k.known x) refl;
              ordered = (sym (k.known target.exchange) ∙ i, k.ordered);
            }))
    ]
declare-IsKept target q body (some e) answer (some type) p t on k =
    elim (Bool-cases (among target.exchange p.declared)) [
      | inl i ↦
          rw i
            (on_encoded-IsKept target q body answer p (rw t (sym (k.known target.exchange) ∙ i)) k)
      | inr i ↦ rw i (record {
        idle = k.idle;
        known = k.known;
        ordered = (sym (k.known target.exchange) ∙ i, k.ordered);
      })
    ]

connected-IsKept :
    (target : Target) (q : Properties) (body : Outcome ℕ) (to_declare : Option Exc)
    (answer : Answer) (c : Connection) (p : Publisher)
    → p.connection ≡ c
    → IsKept p
    → IsKept (publish_connected target q body to_declare answer c p).1
connected-IsKept target q body to_declare answer closed p on k = k
connected-IsKept target q body to_declare answer reconnecting p on k = k
connected-IsKept target q body to_declare answer connected p on k =
    declare-IsKept target q body to_declare answer target.exchange_type p refl on k

drop-IsKept : (b : Bool) (c : Connection) (p : Publisher) → IsKept p → IsKept (on_drop b c p)
drop-IsKept true connected p k = record { idle = refl; known = λ x. refl; ordered = k.ordered }
drop-IsKept false connected p k = record { idle = refl; known = λ x. refl; ordered = k.ordered }
drop-IsKept b reconnecting p k = k
drop-IsKept b closed p k = k

-- Without a connection, nothing is known as declared.
record IsFresh (p : Publisher) : Type 0 where
  down : IsKept p
  empty : p.declared ≡ []

given_up-IsFresh : (p : Publisher) → IsFresh p → IsFresh (given_up p)
given_up-IsFresh p f = record {
  down = record { idle = f.down.idle; known = λ x. rw (f.empty) refl; ordered = f.down.ordered };
  empty = f.empty;
}

noted-IsFresh : (x : Option Text) (b : Bool) (p : Publisher) → IsFresh p → IsFresh (noted x b p)
noted-IsFresh none b p f = f
noted-IsFresh (some x) b p f = record {
  down = record { idle = f.down.idle; known = f.down.known; ordered = f.down.ordered };
  empty = f.empty;
}

prepared-IsKept :
    (continue : Publisher → Publisher) (x : Option Text) (a : Preparation) (p : Publisher)
    → ((q : Publisher) → IsFresh q → IsKept (continue q))
    → IsFresh p
    → IsKept (on_prepared continue x a p)
prepared-IsKept continue x prepared p h f = h (noted x true p) (noted-IsFresh x true p f)
prepared-IsKept continue x refused_before p h f = (given_up-IsFresh p f).down
prepared-IsKept continue x refused p h f =
    (given_up-IsFresh (noted x false p) (noted-IsFresh x false p f)).down
prepared-IsKept continue x refused_after p h f =
    (given_up-IsFresh (noted x true p) (noted-IsFresh x true p f)).down

topology-IsKept :
    (xs : List (Option Text)) (answers : List Preparation) (p : Publisher)
    → IsFresh p
    → IsKept (declare_topology xs answers p)
unfolding declare_topology
topology-IsKept [] answers p f = record {
  idle = tt;
  known = f.down.known;
  ordered = f.down.ordered;
}
topology-IsKept (x ∷ xs) [] p f =
    prepared-IsKept (declare_topology xs []) x prepared p (λ q. topology-IsKept xs [] q) f
topology-IsKept (x ∷ xs) (a ∷ answers) p f =
    prepared-IsKept (declare_topology xs answers) x a p (λ q. topology-IsKept xs answers q) f

open-IsKept :
    (answers : List Preparation) (c : Connection) (p : Publisher)
    → p.connection ≡ c
    → IsKept p
    → IsKept (on_open answers c p)
open-IsKept answers connected p on k = k
open-IsKept answers reconnecting p on k =
    topology-IsKept p.topology answers p (record { down = k; empty = rw on at k.idle })
open-IsKept answers closed p on k =
    topology-IsKept p.topology answers p (record { down = k; empty = rw on at k.idle })

module _ (codec : Codec) where
  abbrev pub perform : Op → Publisher → Publisher
  perform (sends e headers target body to_declare answer) p =
      (publish codec e headers target body to_declare answer p).1
  perform (changes c) p = change c p

  unfoldable pub perform_all : List Op → Publisher → Publisher
  perform_all [] p = p
  perform_all (o ∷ os) p = perform_all os (perform o p)

  perform-IsKept : (o : Op) (p : Publisher) → IsKept p → IsKept (perform o p)
  unfolding publish change
  perform-IsKept (sends e headers target body to_declare answer) p k =
      connected-IsKept target (stamp codec target.properties e headers) body to_declare answer
        p.connection p refl k
  perform-IsKept (changes (opens answers)) p k = open-IsKept answers p.connection p refl k
  perform-IsKept (changes (drops b)) p k = drop-IsKept b p.connection p k

  perform_all-IsKept : (os : List Op) (p : Publisher) → IsKept p → IsKept (perform_all os p)
  unfolding perform_all
  perform_all-IsKept [] p k = k
  perform_all-IsKept (o ∷ os) p k = perform_all-IsKept os (perform o p) (perform-IsKept o p k)

  -- Over any publishes one after the other, and whatever they come to, and any openings, with
  -- whatever becomes of the topology's declarations, and losses of the connection: nothing is
  -- published to an exchange with a type before the broker has taken a publish's declaration of it
  -- on that connection, and no publish declares it again on it after that. What the topology
  -- declares is declared besides, and spares no publish its declaration.
  pub perform_all-IsOrdered :
      (topology : List (Option Text)) (os : List Op)
      → IsOrdered (perform_all os (new_publisher topology)).log
  perform_all-IsOrdered topology os =
      let start : IsKept (new_publisher topology) = record {
        idle = refl;
        known = λ x. refl;
        ordered = tt;
      } in
      let kept = perform_all-IsKept os (new_publisher topology) start in kept.ordered
