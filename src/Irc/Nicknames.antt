-- ===== src/Irc/Nicknames.antt =====
-- The nicknames of the clients (src/irc/IrcServer.cpp): no two clients share one.
pub mod Histories
use ricochet_irc.Prelude.{
  ℕ, ◌≡◌, ◌≢◌, refl, ap, sym, ◌∙◌, ◌⊎◌, inl, inr, Bool, true, false, ◌&&◌, ◌||◌, List, [], ◌∷◌,
  Option, none, some, find, put, find-put, is_some, same, same_refl, ◌==◌, if◌then◌else◌, All,
  if_both, option_both, arith, Dict, Bool-cases,
}
use ricochet_irc.Connection.State.{Text}
use ricochet_irc.Irc.State.{
  UserRef, client, virtual, IrcUser, IrcConnection, IrcChannel, IrcServer, Call, nick_of,
  who_or_new, update_connection, new_user,
}
use ricochet_irc.Irc.Channels.{client_named, find_user, with_name}
use ricochet_irc.Irc.Users.{
  Qt, Message, new_connection, new_connection_object, params_of, param, with_pass, with_nick,
  with_user, with_welcome,
}
use ricochet_irc.Irc.Control.{Setup, start}
use ricochet_irc.Irc.Evolution.{Policy, Evolves, Guests, is_listed}
use ricochet_irc.Irc.Handling.{Invariant, Registers}

-- Every member, every call and every end is as good as another.
abbrev pub anything : Policy
anything = record { Admits = λ r. Unit; Permits = λ k. Unit; Ends = λ c. Unit; usual = λ k h. tt }

-- Clients with the same nickname have none yet, or are one client.
abbrev pub Distinct : IrcServer → Type 0
Distinct s =
    (c d : ℕ)
    → is_listed c s.clients ≡ true
    → is_listed d s.clients ≡ true
    → nick_of (client c) s ≡ nick_of (client d) s
    → (nick_of (client c) s ≡ []) ⊎ (c ≡ d)

same_nick :
    (s t : IrcServer) (c : ℕ)
    → t.connections ≡ s.connections
    → nick_of (client c) t ≡ nick_of (client c) s
same_nick s t c e = ap (λ (m : Dict IrcConnection). (who_or_new (find c m)).nick) e

pub evolve-Distinct : (s t : IrcServer) → Distinct s → Evolves anything s t → Distinct t
evolve-Distinct s t h e c d lc ld eq =
    let nc = same_nick s t c e.connections in
    let nd = same_nick s t d e.connections in
    elim (h c d (e.clients c lc) (e.clients d ld) (sym nc ∙ eq ∙ nd)) [
      | inl k ↦ inl (nc ∙ k)
      | inr k ↦ inr k
    ]

pub clients-update :
    (c : ℕ) (f : IrcConnection → IrcConnection) (s : IrcServer)
    → (update_connection c f s).clients ≡ s.clients
clients-update c f s =
    option_both (λ (t : IrcServer). t.clients ≡ s.clients) (find c s.connections) s
      (λ o. record s { connections = put c (f o) s.connections }) refl (λ o e. refl)

nick-put :
    (c d : ℕ) (o : IrcConnection) (m : Dict IrcConnection)
    → (who_or_new (find d (put c o m))).nick
      ≡ (if c == d then o.who.nick else (who_or_new (find d m)).nick)
nick-put c d o m = ground (arith, find-put c d o m)

-- A nickname behind a change of a connection.
nick-update :
    (c d : ℕ) (f : IrcConnection → IrcConnection) (s : IrcServer)
    → ((o : IrcConnection) → (f o).who.nick ≡ o.who.nick)
    → nick_of (client d) (update_connection c f s) ≡ nick_of (client d) s
nick-update c d f s keeps =
    option_both (λ (t : IrcServer). nick_of (client d) t ≡ nick_of (client d) s)
      (find c s.connections) s (λ o. record s { connections = put c (f o) s.connections }) refl
      (λ o e. ground (arith, nick-put c d (f o) s.connections, keeps o, e))

pub update-Distinct :
    (c : ℕ) (f : IrcConnection → IrcConnection) (s : IrcServer)
    → ((o : IrcConnection) → (f o).who.nick ≡ o.who.nick)
    → Distinct s
    → Distinct (update_connection c f s)
update-Distinct c f s keeps h a b la lb eq =
    let na = nick-update c a f s keeps in
    let nb = nick-update c b f s keeps in
    let cl = clients-update c f s in
    elim (h a b (rw (← cl) la) (rw (← cl) lb) (sym na ∙ eq ∙ nb)) [
      | inl k ↦ inl (na ∙ k)
      | inr k ↦ inr k
    ]

-- A nickname behind a renaming.
nick-renamed :
    (c d : ℕ) (nick : Text) (s : IrcServer)
    → ((nick_of (client d) (update_connection c (with_name nick) s) ≡ nick) × (c ≡ d))
      ⊎ (nick_of (client d) (update_connection c (with_name nick) s) ≡ nick_of (client d) s)
nick-renamed c d nick s =
    option_both
      (λ (t : IrcServer).
        ((nick_of (client d) t ≡ nick) × (c ≡ d)) ⊎ (nick_of (client d) t ≡ nick_of (client d) s))
      (find c s.connections) s
      (λ o. record s { connections = put c (with_name nick o) s.connections }) (inr refl)
      (λ o e. ground (arith, nick-put c d (with_name nick o) s.connections))

client_named-ne :
    (nick : Text) (s : IrcServer) (cs : List ℕ) (c : ℕ)
    → client_named nick s cs ≡ false
    → is_listed c cs ≡ true
    → nick_of (client c) s ≢ nick
client_named-ne nick s [] c e l = absurd (ground arith)
client_named-ne nick s (d ∷ ds) c e l = elim (Bool-cases (d == c)) [
  | inl b ↦ λ eq. absurd (ground (arith, same_refl nick))
  | inr b ↦ client_named-ne nick s ds c (ground arith) (ground arith)
]

-- A nickname that no client has is given to one.
rename-Distinct :
    (c : ℕ) (nick : Text) (s t : IrcServer)
    → Distinct s
    → find_user nick s ≡ false
    → Evolves anything s t
    → Distinct (update_connection c (with_name nick) t)
unfolding find_user
rename-Distinct c nick s t h free e a b la lb eq =
    let cl = clients-update c (with_name nick) t in
    let ta : is_listed a t.clients ≡ true = rw (← cl) la in
    let tb : is_listed b t.clients ≡ true = rw (← cl) lb in
    elim (nick-renamed c a nick t) [
      | inl (na, ca) ↦ elim (nick-renamed c b nick t) [
        | inl (nb, cb) ↦ inr (sym ca ∙ cb)
        | inr nb ↦ absurd (other b tb (sym nb ∙ sym eq ∙ na))
      ]
      | inr na ↦ elim (nick-renamed c b nick t) [
        | inl (nb, cb) ↦ absurd (other a ta (sym na ∙ eq ∙ nb))
        | inr nb ↦ elim (evolve-Distinct s t h e a b ta tb (sym na ∙ eq ∙ nb)) [
          | inl k ↦ inl (na ∙ k)
          | inr k ↦ inr k
        ]
      ]
    ]
  where
    unnamed : client_named nick s s.clients ≡ false
    unnamed = ground (arith, free)

    other : (d : ℕ) → is_listed d t.clients ≡ true → nick_of (client d) t ≢ nick
    other d l k =
        client_named-ne nick s s.clients d unnamed (e.clients d l)
          (sym (same_nick s t d e.connections) ∙ k)

pub Distinct-Invariant : Invariant anything Distinct
Distinct-Invariant = record {
  evolve = λ {s} {t} g e. evolve-Distinct s t g e;
  admits = λ c s g h. tt;
  own = λ c s g h text k. tt;
  orders = λ c s g h k o. tt;
  welcome = λ c s g. update-Distinct c with_welcome s (λ o. refl) g;
  new_name = rename-Distinct;
}

pub Distinct-Registers : (c : ℕ) (m : Message) → Registers Distinct c m
Distinct-Registers c m = record {
  pass = λ s g e f. update-Distinct c with_pass s (λ o. refl) g;
  nick = λ s g e f. update-Distinct c with_nick s (λ o. refl) g;
  user = λ s g e f.
      update-Distinct c (with_user (param 0 (params_of m)) (param 3 (params_of m))) s (λ o. refl) g;
}
