-- ===== src/Node/ArgStream/Joining.antt =====
-- Frames that reach the argument stream one after another are joined.
use tchannel.Prelude.{
  ℕ, ◌≡◌, refl, sym, ap, true, false, List, [], ◌∷◌, ◌++◌, none, string_eq, nat_eq, append_nil,
}
use tchannel.Node.ArgStream.{
  InArgStream, write, write_part, has_stream, end, advance, advance_all, handle_parts, handle_rest,
  handle_frame,
}

-- a stream whose second argument is at hand, or whose third one is
abbrev pub at2 : List ℕ → InArgStream
at2 xs = record {
  arg2 = record { written = xs; ended = false };
  arg3 = record { written = []; ended = false };
  i_stream = 0;
  finished = false;
  num_finished = 0;
}

abbrev pub at3 : List ℕ → List ℕ → InArgStream
at3 xs ys = record {
  arg2 = record { written = xs; ended = true };
  arg3 = record { written = ys; ended = false };
  i_stream = 1;
  finished = false;
  num_finished = 0;
}

-- both arguments are complete
abbrev pub complete : List ℕ → List ℕ → InArgStream
complete xs ys = record {
  arg2 = record { written = xs; ended = true };
  arg3 = record { written = ys; ended = true };
  i_stream = 2;
  finished = false;
  num_finished = 0;
}

write_part-at2 : (xs part : List ℕ) → write_part part (at2 xs) ≡ at2 (xs ++ part)
unfolding write_part write
write_part-at2 xs [] = ap at2 (sym (append_nil xs))
write_part-at2 xs (b ∷ part) = refl

write_part-at3 : (xs ys part : List ℕ) → write_part part (at3 xs ys) ≡ at3 xs (ys ++ part)
unfolding write_part write
write_part-at3 xs ys [] = ap (at3 xs) (sym (append_nil ys))
write_part-at3 xs ys (b ∷ part) = refl

pub advance-at2 : (xs : List ℕ) → advance (at2 xs) ≡ at3 xs []
unfolding advance has_stream end
advance-at2 xs = refl

pub more_of_2 :
    (xs part : List ℕ) → handle_frame (part ∷ []) false (at2 xs) ≡ (none, at2 (xs ++ part))
unfolding handle_frame handle_parts handle_rest has_stream
more_of_2 xs part = rw (write_part-at2 xs part)

pub rest_of_2 :
    (xs part ys : List ℕ)
    → handle_frame (part ∷ ys ∷ []) false (at2 xs) ≡ (none, at3 (xs ++ part) ys)
unfolding handle_frame handle_parts handle_rest has_stream
rest_of_2 xs part ys =
    rw (write_part-at2 xs part, advance-at2 (xs ++ part), write_part-at3 (xs ++ part) [] ys)

pub more_of_3 :
    (xs ys part : List ℕ) → handle_frame (part ∷ []) false (at3 xs ys) ≡ (none, at3 xs (ys ++ part))
unfolding handle_frame handle_parts handle_rest has_stream
more_of_3 xs ys part = rw (write_part-at3 xs ys part)

pub last_of_2 :
    (xs part ys : List ℕ)
    → handle_frame (part ∷ ys ∷ []) true (at2 xs) ≡ (none, complete (xs ++ part) ys)
unfolding handle_frame handle_parts handle_rest has_stream advance_all advance end
last_of_2 xs part ys =
    rw (write_part-at2 xs part, advance-at2 (xs ++ part), write_part-at3 (xs ++ part) [] ys)

pub last_of_3 :
    (xs ys part : List ℕ)
    → handle_frame (part ∷ []) true (at3 xs ys) ≡ (none, complete xs (ys ++ part))
unfolding handle_frame handle_parts handle_rest has_stream advance_all advance end
last_of_3 xs ys part = rw (write_part-at3 xs ys part)
