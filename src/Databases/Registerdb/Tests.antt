-- ===== src/Databases/Registerdb/Tests.antt =====
-- One entry that is queued.
use talkeqidea.Common.{◌≡◌, refl, false, [], ◌∷◌, none, arith, codes, text_eq, lookup, insert}
use talkeqidea.Databases.Registerdb.{
  RegisterEntry, Registrations, in_queue, waiting_reply, is_queued, take_queued, queued_entries,
}
use talkeqidea.Databases.Registerdb.Queued.{handed_out_once}

abbrev pub waiting : RegisterEntry
waiting = record {
  discord_id = codes "1";
  discord_name = codes "ann";
  status = in_queue;
  character_name = codes "Ann";
  channel_id = codes "7";
  message_id = codes "m";
  timeout = 40;
  code = codes "1234";
}

abbrev pub asked : Registrations
asked = record { registrations = (codes "1", waiting) ∷ []; file = none }

handed_out_once_example : is_queued 20 (record waiting { status = waiting_reply }) ≡ false
unfolding queued_entries take_queued is_queued insert lookup text_eq
handed_out_once_example =
    handed_out_once asked 10 20 (codes "1") (record waiting { status = waiting_reply }) (refl, tt)
      (omega arith) refl
