-- ===== src/Stack/Unconfirmed/Receiver.antt =====
-- What a stack does with the octets of frames of unconfirmed user data, however they are cut: one frame.
use go_dnp.Common.{
  ℕ, ◌<◌, Bool, true, bool_ne, Option, none, some, List, [], ◌∷◌, ◌++◌, append-nil, length, ◌≡◌,
  refl, ap, arith,
}
use go_dnp.Link.Address.{is_broadcast, is_valid_source}
use go_dnp.Link.Frame.{Frame}
use go_dnp.Link.Frame.RoundTrip.{with_len}
use go_dnp.Transport.Reassembler.{accept}
use go_dnp.Transport.Reassembler.RoundTrip.{delivered}
use go_dnp.Stack.{Stack, Received, addressed_to_us}
use go_dnp.Stack.Receiving.{deliver, on_request, on_frame}
use go_dnp.Stack.Unconfirmed.{World, line, note, data_header, on_frame-unconfirmed}

-- The reports of fragments.
abbrev pub heard : ℕ → ℕ → List (List ℕ) → List Received
heard dest src [] = []
heard dest src (f ∷ fs) =
    record { fragment = f; source = src; dest = dest; broadcast = is_broadcast dest }
    ∷ heard dest src fs

-- What a frame's fragment adds to the world.
abbrev pub reports : ℕ → ℕ → World → Option (List ℕ) → World
reports dest src w res = record w { reported = w.reported ++ heard dest src (delivered res []) }

module _ (r : Stack) (w : World) (is_master : Bool) (dest src : ℕ) (payload : List ℕ) where
  abbrev arrived : Frame
  arrived = record {
    header = with_len (data_header is_master dest src (length payload)) (length payload);
    payload = payload;
  }

  deliver-line : deliver line note (r, w) arrived (some payload) ≡ (
    record r { reasm = (accept r.reasm payload).0 },
    reports dest src w (accept r.reasm payload).1.fragment,
  )
  unfolding deliver
  deliver-line = ground (arith, append-nil w.reported)

  on_request-line :
      0 < length payload
      → on_request line note r w arrived ≡ (
        (
          record r { reasm = (accept r.reasm payload).0 },
          reports dest src w (accept r.reasm payload).1.fragment,
        ),
        none,
      )
  unfolding on_request
  on_request-line long =
      rw (on_frame-unconfirmed r.sec arrived refl refl refl long)
        (ap (λ sw. (sw, none)) deliver-line)

  -- The frame is handed to reassembly, if it comes to this station from a valid one of the other role.
  pub on_frame-line :
      0 < length payload
      → r.cfg.local_addr ≡ dest
      → bool_ne is_master r.cfg.is_master ≡ true
      → is_valid_source src ≡ true
      → on_frame line note r w arrived ≡ (
        (
          record r { reasm = (accept r.reasm payload).0 },
          reports dest src w (accept r.reasm payload).1.fragment,
        ),
        none,
      )
  unfolding on_frame addressed_to_us
  on_frame-line long here other valid = ground (arith, on_request-line long)
