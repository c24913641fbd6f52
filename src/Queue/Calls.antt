-- ===== src/Queue/Calls.antt =====
-- The calls of the queue that a run adds.
use gov_flow.Prelude.{ℕ, suc, ◌≡◌, refl, sym, ◌∙◌, ap, List, [], ◌∷◌, ◌++◌}
use mathlib.Core.List.{append_assoc, append-nil}
use gov_flow.Runtime.{World, M, Result, ok, err, QueueCall, continue, ◌>>=◌}
use gov_flow.Runtime.Both.{Both}
use gov_flow.Queue.{call_queue}

-- The world after a call.
abbrev pub called : QueueCall → World → World
called c w = record w { ticks = suc w.ticks; queue_calls = w.queue_calls ++ c ∷ [] }

-- A call, and what comes after it
pub Both-after_call :
    {A B : Type 0} (E : World → Type 0) (Q : B → World → Type 0) (w : World) (c : QueueCall)
    (answer : ℕ → Result A) (f : A → M B)
    → ((a : A) → answer w.ticks ≡ ok a → Both Q E (f a (called c w)))
    → E (called c w)
    → Both Q E ((call_queue c answer >>= f) w)
unfolding call_queue ◌>>=◌
Both-after_call {A} E Q w c answer f h x = at (answer w.ticks) refl
  where
    at : (r : Result A) → answer w.ticks ≡ r → Both Q E (continue r f (called c w))
    at (ok a) e = h a e
    at (err y) e = x

-- The calls that a run has added
abbrev pub Added : List QueueCall → World → World → Type 0
Added calls w v = v.queue_calls ≡ w.queue_calls ++ calls

-- One more call
pub more :
    (calls : List QueueCall) (c : QueueCall) (w v : World)
    → Added calls w v
    → Added (calls ++ c ∷ []) w (called c v)
more calls c w v h =
    ap (λ (l : List QueueCall). l ++ c ∷ []) h ∙ append_assoc w.queue_calls calls (c ∷ [])

-- A run whose calls are of such a list, whether it returns or throws
abbrev pub Traces : (List QueueCall → Type 0) → World → World → Type 0
Traces P w v = (calls : List QueueCall) × P calls × Added calls w v

pub two : (a b : QueueCall) (w : World) → Added (a ∷ b ∷ []) w (called b (called a w))
two a b w = more (a ∷ []) b w (called a w) refl

pub three :
    (a b c : QueueCall) (w : World) → Added (a ∷ b ∷ c ∷ []) w (called c (called b (called a w)))
three a b c w = more (a ∷ b ∷ []) c w (called b (called a w)) (two a b w)

pub four :
    (a b c d : QueueCall) (w : World)
    → Added (a ∷ b ∷ c ∷ d ∷ []) w (called d (called c (called b (called a w))))
four a b c d w = more (a ∷ b ∷ c ∷ []) d w (called c (called b (called a w))) (three a b c w)

pub none_yet : (w : World) → Added [] w w
none_yet w = sym (append-nil w.queue_calls)
