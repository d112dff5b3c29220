-- ===== src/Bler/Udp/Dispatch.antt =====
-- The `switch` of `ReceivePacketsFromUdp` in Robot/src/BLER.cpp against its specification.
use lame.Prelude.{
  ℕ, ◌≤◌, ◌≡◌, ◌≢◌, ◌⊎◌, inl, inr, refl, Bool, false, List, Option, none, some, length, arith, ok,
  ltb, ◌==◌, Bool-cases, ==_iff, min, if◌then◌else◌,
}
use lame.Packet.Opcodes.{
  drive_opcode, direct_switch_opcode, ai_switch_opcode, remote_switch_opcode,
  switch_mode_ack_opcode, ai_init_opcode, query_camera_image_opcode, query_camera1_image_opcode,
  set_camera_quality_opcode, query_heartbeat_opcode, report_heartbeat_opcode, enable_encoder_opcode,
  disable_encoder_opcode,
}
use lame.Packet.Create.Fixed.{
  take-wire_array, create_report_heartbeat_packet_lem, create_switch_mode_ack_packet_lem,
  create_ai_init_packet_lem,
}
use lame.Packet.Parse.Total.{parse_drive_payload_total, parse_quality_payload_total}
use lame.Bler.State.{Sockets, SockAddr, Bler}
use lame.Bler.Sending.{Event, send_packet_serial, send_packet_udp}
use lame.Bler.Udp.{
  Surroundings, on_query_heartbeat, on_ai_switch, on_remote_switch, on_set_camera_quality, on_drive,
  dispatch,
}
use lame.Bler.Udp.Spec.{
  Handles, heartbeat, to_ai_connected, to_ai_alone, to_remote, to_direct, image, image1,
  quality_set, driven, encoder_switched, unknown,
}

quality-min : (q : ℕ) → (if ltb 100 q then 100 else q) ≡ min 100 q
quality-min q = ground arith

differs : (op c : ℕ) → (op == c) ≡ false → op ≢ c
differs op c h e = ground arith

module _ {Frame : Type 0} (imencode : Frame → ℕ → Option (List ℕ)) (sys : Sockets) where
  -- For every opcode the `switch` ends without leaving the array, and what it comes to is what
  -- `Handles` says: the new state of the robot in full, and all that is sent.
  pub dispatch-Handles :
      (r : Bler Frame) (addr : SockAddr) (from_ai : Bool) (b : List ℕ) (n op : ℕ)
      (payload : Option ℕ) (env : Surroundings)
      → 8 ≤ length b
      → (payload ≡ none) ⊎ (payload ≡ some 3)
      → (x : Option (Bler Frame × List Event)) × (dispatch imencode sys r addr from_ai b n op
            payload env
          ≡ ok x)
        × Handles imencode sys r addr from_ai b n payload env op x
  unfolding dispatch on_query_heartbeat on_ai_switch on_remote_switch on_set_camera_quality on_drive
      send_packet_serial send_packet_udp
  dispatch-Handles r addr from_ai b n op payload env room ptr =
      elim (Bool-cases (op == query_heartbeat_opcode)) [
        | inl e ↦ (
          _,
          rw (e, create_report_heartbeat_packet_lem, take-wire_array report_heartbeat_opcode),
          heartbeat ((==_iff op query_heartbeat_opcode).0 e) refl,
        )
        | inr n0 ↦ elim (Bool-cases (op == ai_switch_opcode)) [
          | inl e ↦ elim (Bool-cases r.ai_connected) [
            | inl c ↦ (
              _,
              rw (
                n0,
                e,
                create_switch_mode_ack_packet_lem,
                create_ai_init_packet_lem,
                c,
                take-wire_array switch_mode_ack_opcode,
                take-wire_array ai_init_opcode,
              ),
              to_ai_connected ((==_iff op ai_switch_opcode).0 e) c refl,
            )
            | inr c ↦ (
              _,
              rw (
                n0,
                e,
                create_switch_mode_ack_packet_lem,
                create_ai_init_packet_lem,
                c,
                take-wire_array switch_mode_ack_opcode,
              ),
              to_ai_alone ((==_iff op ai_switch_opcode).0 e) c refl,
            )
          ]
          | inr n1 ↦ elim (Bool-cases (op == remote_switch_opcode)) [
            | inl e ↦ (
              _,
              rw (
                n0,
                n1,
                e,
                create_switch_mode_ack_packet_lem,
                take-wire_array switch_mode_ack_opcode,
              ),
              to_remote ((==_iff op remote_switch_opcode).0 e) refl,
            )
            | inr n2 ↦ elim (Bool-cases (op == direct_switch_opcode)) [
              | inl e ↦
                  (_, rw (n0, n1, n2, e), to_direct ((==_iff op direct_switch_opcode).0 e) refl)
              | inr n3 ↦ elim (Bool-cases (op == query_camera_image_opcode)) [
                | inl e ↦ (
                  _,
                  rw (n0, n1, n2, n3, e),
                  image ((==_iff op query_camera_image_opcode).0 e) refl,
                )
                | inr n4 ↦ elim (Bool-cases (op == query_camera1_image_opcode)) [
                  | inl e ↦ (
                    _,
                    rw (n0, n1, n2, n3, n4, e),
                    image1 ((==_iff op query_camera1_image_opcode).0 e) refl,
                  )
                  | inr n5 ↦ elim (Bool-cases (op == set_camera_quality_opcode)) [
                    | inl e ↦
                        let (p, parsed) =
                          parse_quality_payload_total b payload env.stale_quality (omega arith)
                            ptr in
                        (
                          _,
                          rw (n0, n1, n2, n3, n4, n5, e, parsed, quality-min p.quality),
                          quality_set p ((==_iff op set_camera_quality_opcode).0 e) parsed refl,
                        )
                    | inr n6 ↦ elim (Bool-cases (op == drive_opcode)) [
                      | inl e ↦
                          let (p, parsed) =
                            parse_drive_payload_total b payload env.stale_drive room ptr in
                          (
                            _,
                            rw (n0, n1, n2, n3, n4, n5, n6, e, parsed),
                            driven p ((==_iff op drive_opcode).0 e) parsed refl,
                          )
                      | inr n7 ↦ elim (Bool-cases (op == enable_encoder_opcode)) [
                        | inl e ↦ (
                          _,
                          rw (n0, n1, n2, n3, n4, n5, n6, n7, e),
                          encoder_switched (inl ((==_iff op enable_encoder_opcode).0 e)) refl,
                        )
                        | inr n8 ↦ elim (Bool-cases (op == disable_encoder_opcode)) [
                          | inl e ↦ (
                            _,
                            rw (n0, n1, n2, n3, n4, n5, n6, n7, n8, e),
                            encoder_switched (inr ((==_iff op disable_encoder_opcode).0 e)) refl,
                          )
                          | inr n9 ↦ (
                            none,
                            rw (n0, n1, n2, n3, n4, n5, n6, n7, n8, n9),
                            unknown
                                (
                                  differs op query_heartbeat_opcode n0,
                                  (
                                    differs op ai_switch_opcode n1,
                                    (
                                      differs op remote_switch_opcode n2,
                                      (
                                        differs op direct_switch_opcode n3,
                                        (
                                          differs op query_camera_image_opcode n4,
                                          (
                                            differs op query_camera1_image_opcode n5,
                                            (
                                              differs op set_camera_quality_opcode n6,
                                              (
                                                differs op drive_opcode n7,
                                                (
                                                  differs op enable_encoder_opcode n8,
                                                  (differs op disable_encoder_opcode n9, tt),
                                                ),
                                              ),
                                            ),
                                          ),
                                        ),
                                      ),
                                    ),
                                  ),
                                )
                                refl,
                          )
                        ]
                      ]
                    ]
                  ]
                ]
              ]
            ]
          ]
        ]
      ]
