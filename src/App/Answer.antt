-- ===== src/App/Answer.antt =====
-- What the callback of app/main.c makes of the events that it is called with.
use psycho.Prelude.{
  ◌≡◌, arith, refl, sym, ap, ◌∙◌, of_some, Bool, true, false, none, some, List, [], ◌∷◌,
}
use psycho.State.{Event}
use psycho.Cpu.Valid.Access.{bind-some}
use psycho.BiosTrace.{c_string, tty_output_size_max}
use psycho.App.{is_illegal, ctx_event_handle, call_back, answer}

call_back-is_illegal :
    (o : Bool) (e : Event) (es : List Event) (t : Bool)
    → call_back o e (is_illegal es) ≡ some t
    → t ≡ is_illegal (e ∷ es)
unfolding call_back ctx_event_handle
call_back-is_illegal o Event.cpu_illegal es t h = ground arith
call_back-is_illegal o (Event.log_message m) es t h = ground arith
call_back-is_illegal true (Event.tty_message chars) es t h = ground arith
call_back-is_illegal false (Event.tty_message chars) es t h = ground arith

-- If every call has a result, the callback has trapped exactly if it was told of an illegal
-- instruction.
pub answer-is_illegal :
    (o : Bool) (es : List Event) (t : Bool) → answer o es ≡ some t → t ≡ is_illegal es
unfolding answer
answer-is_illegal o [] t h = sym (of_some h)
answer-is_illegal o (e ∷ es) t h =
    let (s, q, k) = bind-some (answer o es) _ h in
    call_back-is_illegal o e es t (ap (call_back o e) (sym (answer-is_illegal o es s q)) ∙ k)

-- Every line for the TTY's file ends within its array.
abbrev pub writable : List Event → Bool
writable [] = true
writable (Event.cpu_illegal ∷ es) = writable es
writable (Event.log_message m ∷ es) = writable es
writable (Event.tty_message chars ∷ es) = elim (c_string tty_output_size_max chars) [
  | some line ↦ writable es
  | none ↦ false
]

call_back-writable :
    (e : Event) (es : List Event)
    → writable (e ∷ es) ≡ true
    → call_back true e (is_illegal es) ≡ some (is_illegal (e ∷ es))
unfolding call_back ctx_event_handle
call_back-writable Event.cpu_illegal es h = ground arith
call_back-writable (Event.log_message m) es h = ground arith
call_back-writable (Event.tty_message chars) es h = ground arith

writable-tail : (e : Event) (es : List Event) → writable (e ∷ es) ≡ true → writable es ≡ true
writable-tail Event.cpu_illegal es h = h
writable-tail (Event.log_message m) es h = h
writable-tail (Event.tty_message chars) es h = ground arith

-- With the file open, the callback has a result for each of them.
pub writable-answer : (es : List Event) → writable es ≡ true → answer true es ≡ some (is_illegal es)
unfolding answer
writable-answer [] h = refl
writable-answer (e ∷ es) h =
    rw (writable-answer es (writable-tail e es h)) (call_back-writable e es h)

heard_untrapped :
    (e : Event) (es : List Event) (t : Bool)
    → call_back true e t ≡ some false
    → (t ≡ false) × ((writable es ≡ true) → (writable (e ∷ es) ≡ true))
unfolding call_back ctx_event_handle
heard_untrapped Event.cpu_illegal es t h = ground arith
heard_untrapped (Event.log_message m) es t h = ground arith
heard_untrapped (Event.tty_message chars) es t h = ground arith

-- What the callback was called with, if it has not trapped.
pub answer-writable : (es : List Event) → answer true es ≡ some false → writable es ≡ true
unfolding answer
answer-writable [] h = refl
answer-writable (e ∷ es) h =
    let (t, q, k) = bind-some (answer true es) _ h in
    let (untrapped, further) = heard_untrapped e es t k in
    further (answer-writable es (q ∙ ap some untrapped))

-- The events without the messages of the log.
abbrev pub heard : List Event → List Event
heard [] = []
heard (Event.cpu_illegal ∷ es) = Event.cpu_illegal ∷ heard es
heard (Event.log_message m ∷ es) = heard es
heard (Event.tty_message chars ∷ es) = Event.tty_message chars ∷ heard es

pub is_illegal-heard : (es : List Event) → is_illegal (heard es) ≡ is_illegal es
is_illegal-heard [] = refl
is_illegal-heard (Event.cpu_illegal ∷ es) = refl
is_illegal-heard (Event.log_message m ∷ es) = is_illegal-heard es
is_illegal-heard (Event.tty_message chars ∷ es) = is_illegal-heard es

pub writable-heard : (es : List Event) → writable (heard es) ≡ writable es
writable-heard [] = refl
writable-heard (Event.cpu_illegal ∷ es) = writable-heard es
writable-heard (Event.log_message m ∷ es) = writable-heard es
writable-heard (Event.tty_message chars ∷ es) =
    ap (λ (b : Bool). elim (c_string tty_output_size_max chars) [ some line ↦ b | none ↦ false ])
      (writable-heard es)
