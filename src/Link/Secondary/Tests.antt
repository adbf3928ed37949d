-- ===== src/Link/Secondary/Tests.antt =====
-- A reset, a confirmed frame and its retransmission.
use go_dnp.Common.{ℕ, true, false, ◌≡◌, refl, some, none, [], ◌∷◌, List, ◌↔◌, arith}
use go_dnp.Link.Address.{is_broadcast}
use go_dnp.Link.Secondary.Cases.{Delivers, on_frame-Delivers, on_frame_twice}
use go_dnp.Link.Frame.{Frame}
use go_dnp.Link.Secondary.{
  on_addressed, Secondary, on_frame, func_confirmed_user_data, reply, func_ack,
}

abbrev station : Secondary
station = record { local_addr = 1; is_master = false; is_reset = true; expect_fcb = true }

abbrev user_data : Frame
user_data = record {
  header = record {
    control = record {
      dir = true;
      prm = true;
      fcb = true;
      fcv = true;
      func = func_confirmed_user_data;
    };
    dest = 1;
    src = 1024;
    len = 6;
  };
  payload = 0xc0 ∷ [];
}

once : (on_frame station user_data).1.payload ≡ some (0xc0 ∷ [])
unfolding on_frame on_addressed
once = refl

twice : (on_frame (on_frame station user_data).0 user_data).1.payload ≡ none
unfolding on_frame on_addressed
twice = refl

on_frame-Delivers_example :
    ((p : List ℕ) × ((on_frame station user_data).1.payload ≡ some p)) ↔ Delivers station user_data
on_frame-Delivers_example = on_frame-Delivers station user_data

acknowledged : (on_frame station user_data).1.reply ≡ some (reply station func_ack 1024)
unfolding on_frame on_addressed
acknowledged = refl

on_frame_twice_example :
    let s' = (on_frame station user_data).0 in
    ((on_frame s' user_data).1.payload ≡ none)
    × ((on_frame s' user_data).0 ≡ s')
    × ((on_frame station user_data).1.reply ≡ some (reply station func_ack 1024))
    × ((on_frame s' user_data).1.reply ≡ (on_frame station user_data).1.reply)
unfolding is_broadcast
on_frame_twice_example = on_frame_twice station user_data refl refl refl (omega arith) refl refl
