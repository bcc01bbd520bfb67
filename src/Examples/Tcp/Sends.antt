-- ===== src/Examples/Tcp/Sends.antt =====
-- What the handlers of examples/tcp send, and what is to hold of the messages that are on their way.
use simple_message.Prelude.{
  ℕ, ◌+◌, ◌*◌, ◌==◌, ◌≤◌, ◌≡◌, ◌⊎◌, inl, inr, refl, sym, ap, ◌∙◌, subst, List, [], ◌∷◌, ◌++◌,
  append_assoc, append-nil, length, Option, none, some, if◌then◌else◌, nat_eq, arith,
}
use simple_message.Errors.{Error}
use simple_message.Protocol.Wire.{All}
use simple_message.Protocol.Decoder.{Message}
use simple_message.Connection.Request.{Handler, Request}
use simple_message.Examples.Tcp.{
  Link, Caller, send_msg, send_with, send_second, text_message, hello_from_server, answer,
}

-- The messages of the list with the number 1, and the errors among results
abbrev pub ones : List Message → ℕ
ones [] = 0
ones (m ∷ ms) = let n = ones ms in if m.msg_id == 1 then n + 1 else n

abbrev pub failures : List (Option Error) → ℕ
failures [] = 0
failures (none ∷ rs) = failures rs
failures (some e ∷ rs) = failures rs + 1

abbrev pub in_hand : Option (Message × Handler Caller) → List Message
in_hand none = []
in_hand (some (m, h)) = m ∷ []

abbrev pub IsOne : Message → Type 0
IsOne m = m.msg_id ≡ 1

-- Numbers 1 and 2, and no 2 behind a 2
abbrev pub StartsOne : List Message → Type 0
StartsOne [] = Unit
StartsOne (m ∷ ms) = m.msg_id ≡ 1

abbrev pub Spaced : List Message → Type 0
Spaced [] = Unit
Spaced (m ∷ ms) = ((m.msg_id ≡ 1) ⊎ ((m.msg_id ≡ 2) × StartsOne ms)) × Spaced ms

pub ones-append : (xs ys : List Message) → ones (xs ++ ys) ≡ ones xs + ones ys
ones-append [] ys = omega arith
ones-append (x ∷ xs) ys = ground (arith, ones-append xs ys)

pub StartsOne-append : (xs ys : List Message) → StartsOne xs → StartsOne ys → StartsOne (xs ++ ys)
StartsOne-append [] ys a b = b
StartsOne-append (x ∷ xs) ys a b = a

pub Spaced-append :
    (xs ys : List Message) → Spaced xs → StartsOne ys → Spaced ys → Spaced (xs ++ ys)
Spaced-append [] ys a b c = c
Spaced-append (x ∷ xs) ys (inl e, a) b c = (inl e, Spaced-append xs ys a b c)
Spaced-append (x ∷ xs) ys (inr (e, f), a) b c =
    (inr (e, StartsOne-append xs ys f b), Spaced-append xs ys a b c)

-- Between two messages numbered 2 there is one numbered 1.
pub Spaced-length :
    (xs : List Message)
    → Spaced xs
    → (length xs ≤ 2 * ones xs + 1) × ((StartsOne xs → length xs ≤ 2 * ones xs))
Spaced-length [] a = (omega arith, λ _. omega arith)
Spaced-length (x ∷ xs) (inl e, a) =
    let (l, m) = Spaced-length xs a in (ground (arith, e, l), λ f. ground (arith, e, l))
Spaced-length (x ∷ xs) (inr (e, f), a) =
    let (l, m) = Spaced-length xs a in (ground (arith, e, m f), λ g. ground (arith, e, g))

pub ones-IsOne : (xs : List Message) → All IsOne xs → ones xs ≡ length xs
ones-IsOne [] a = refl
ones-IsOne (x ∷ xs) a = ground (arith, a, ones-IsOne xs a.1)

-- What a handler that was called for a message adds to its outbox: a message numbered 1, unless a
-- SendMsg fails
pub record Adds (l l' : Link) : Type 0 where
  pub more : List Message
  pub grows : l'.outbox ≡ l.outbox ++ more
  pub starts : StartsOne more
  pub spaced : Spaced more
  pub single : ones more ≤ 1
  pub paid : 1 + failures l'.results ≤ ones more + failures l.results

pub record Asks (l l' : Link) : Type 0 where
  pub adds : Adds l l'
  pub ones_only : All IsOne adds.more

-- A SendMsg that returns nil, and one that fails
abbrev pub Went : Message → Link → Option Error × Link → Type 0
Went m l r =
    (r.0 ≡ none) × (r.1.outbox ≡ l.outbox ++ m ∷ []) × (failures r.1.results ≡ failures l.results)

abbrev pub Failed : Link → Option Error × Link → Type 0
Failed l r =
    (e : Error) × (r.0 ≡ some e)
    × (r.1.outbox ≡ l.outbox)
    × (failures r.1.results + 1 ≡ failures l.results)

send_with-effect :
    (m : Message) (l : Link) (rs : List (Option Error))
    → l.results ≡ rs
    → Went m l (send_with m l rs) ⊎ Failed l (send_with m l rs)
unfolding send_with
send_with-effect m l [] e = inl (refl, refl, refl)
send_with-effect m l (none ∷ rs) e = inl (refl, refl, sym (ap failures e))
send_with-effect m l (some x ∷ rs) e = inr (x, refl, refl, sym (ap failures e))

send-effect : (m : Message) (l : Link) → Went m l (send_msg m l) ⊎ Failed l (send_msg m l)
unfolding send_msg
send-effect m l = send_with-effect m l l.results refl

pub one-Asks : (m : Message) (l : Link) → m.msg_id ≡ 1 → Asks l (send_msg m l).1
one-Asks m l e = elim (send-effect m l) [
  | inl (r, b, f) ↦ record {
    adds = record {
      more = m ∷ [];
      grows = b;
      starts = e;
      spaced = (inl e, tt);
      single = ground (arith, e);
      paid = ground (arith, e, f);
    };
    ones_only = (e, tt);
  }
  | inr (x, r, b, f) ↦ record {
    adds = record {
      more = [];
      grows = b ∙ sym (append-nil l.outbox);
      starts = tt;
      spaced = tt;
      single = omega arith;
      paid = omega (arith, f);
    };
    ones_only = tt;
  }
]

second :
    (r : Option Error × Link)
    → r.0 ≡ none
    → send_second r ≡ send_msg (text_message 2 hello_from_server) r.1
unfolding send_second
second (o, l) e = rw e refl

second_not : (r : Option Error × Link) (x : Error) → r.0 ≡ some x → send_second r ≡ r
unfolding send_second
second_not (o, l) x e = rw e refl

pub answer-Adds : (q : Request) (l : Link) → Adds l (answer q l).1
unfolding answer
answer-Adds q l =
    let one = text_message 1 hello_from_server in
    let two = text_message 2 hello_from_server in
    let r = send_msg one l in
    elim (send-effect one l) [
      | inl (n, b, f) ↦ elim (send-effect two r.1) [
        | inl (n', b', f') ↦
            subst (λ x. Adds l x.1) (sym (second r n))
              (record {
                more = one ∷ two ∷ [];
                grows =
                    b' ∙ ap (λ x. x ++ two ∷ []) b ∙ append_assoc l.outbox (one ∷ []) (two ∷ []);
                starts = refl;
                spaced = (inl refl, (inr (refl, tt), tt));
                single = omega arith;
                paid = omega (arith, f, f');
              })
        | inr (x, n', b', f') ↦
            subst (λ x. Adds l x.1) (sym (second r n))
              (record {
                more = one ∷ [];
                grows = b' ∙ b;
                starts = refl;
                spaced = (inl refl, tt);
                single = omega arith;
                paid = omega (arith, f, f');
              })
      ]
      | inr (x, n, b, f) ↦
          subst (λ x. Adds l x.1) (sym (second_not r x n))
            (record {
              more = [];
              grows = b ∙ sym (append-nil l.outbox);
              starts = tt;
              spaced = tt;
              single = omega arith;
              paid = omega (arith, f);
            })
    ]
