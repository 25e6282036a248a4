-- ===== src/MeshUpdate/Cycle/Tests.antt =====
-- meshUpdateCycle and the texts that it reads and writes, at concrete inputs.
use edge_pdl.Prelude.{none, some, true, false, [], ◌∷◌, length, replicate, ◌≡◌, refl, arith}
use edge_pdl.Buffer.{put_all_lem}
use edge_pdl.MeshUpdate.{
  init, Update, download_error, update_started, download_file, update_idle, is_unknown,
  wait_response, update_info_error, internal_error,
}
use edge_pdl.MeshUpdate.Cycle.{
  CycleAnswers, add_request_byte, prepare_info_payload, result_text, is_started, result_json,
  prepare_result_payload, last_from, base_name, is_bin, parse_file_info, idle_cycle,
  wait_response_cycle, end_download, cycle_at, cycle, quiet,
}
use edge_pdl.MeshUpdate.Cycle.Restart.{restart_acknowledged}

abbrev asking : Update
asking = record init {
  state = download_file;
  size = 5;
  file = 10 ∷ 20 ∷ [];
  chunk_offset = 2;
  chunk_err = 4;
}

abbrev answers : CycleAnswers
answers = record {
  parent = 9;
  scan = record {
    matched = true;
    name = 97 ∷ 47 ∷ 98 ∷ 46 ∷ 98 ∷ 105 ∷ 110 ∷ [];
    hash = replicate 64 48;
    size = 40000;
  };
  opened = true;
  download = record {
    chunk_size = 2;
    header = none;
    now = 5001;
    sent_id = 77;
    write_ok = true;
    bytes_written = 2;
    verified = true;
    scratch = [];
    renamed = true;
  };
}

abbrev acknowledged : Update
acknowledged = record asking {
  state = wait_response;
  result = update_started;
  ack_received = true;
  ack_status = true;
}

restarts :
    cycle answers acknowledged
    ≡ some (record {
      ok = true;
      sent = [];
      restart = true;
      update = record acknowledged { state = update_idle };
    })
unfolding cycle cycle_at wait_response_cycle is_started
restarts = refl

restart_acknowledged_example :
    (acknowledged.state ≡ wait_response)
    × (acknowledged.ack_received ≡ true)
    × (acknowledged.ack_status ≡ true)
    × (acknowledged.result ≡ update_started)
restart_acknowledged_example = restart_acknowledged answers acknowledged _ restarts refl

-- Without a clock neither the request for the details nor the result is prepared.
no_clock :
    cycle answers (record asking { state = update_idle; requested = true })
    ≡ some (quiet false (record asking { state = update_idle; requested = true }))
unfolding cycle cycle_at idle_cycle prepare_info_payload
no_clock = refl

no_result :
    end_download answers true (record asking { result = download_error })
    ≡ some (false, record asking { result = download_error })
unfolding end_download prepare_result_payload is_unknown
no_result = refl

request_byte :
    add_request_byte (some 2) (1 ∷ 2 ∷ 0 ∷ []) asking
    ≡ some (true, record asking { buf = 1 ∷ 2 ∷ 0x51 ∷ []; len = 3 })
unfolding add_request_byte
request_byte = rw (put_all_lem (0x51 ∷ []) (1 ∷ 2 ∷ []) (0 ∷ []) (omega arith)) refl

-- {"done":"update started","hash":"7"}
started_json : length (result_json update_started (55 ∷ [])) ≡ 36
unfolding result_json result_text is_started
started_json = refl

-- The path before the name is left out; a file that is no .bin is refused.
last_part : base_name (last_from 47 (97 ∷ 47 ∷ 98 ∷ 47 ∷ 99 ∷ [])) [] ≡ 99 ∷ []
unfolding base_name last_from
last_part = refl

info_taken : parse_file_info answers (record asking { result = internal_error; chunk_err = 4 }) ≡ (
  true,
  record asking {
    hash = replicate 64 48;
    size = 40000;
    file = [];
    chunk_offset = 0;
    chunk_len = 0;
    chunk_err = 0;
  },
)
unfolding parse_file_info base_name last_from is_bin
info_taken = refl

no_bin :
    parse_file_info (record answers { scan = record answers.scan { name = 98 ∷ [] } }) asking
    ≡ (false, record asking { hash = replicate 64 48; size = 40000; result = update_info_error })
unfolding parse_file_info base_name last_from is_bin
no_bin = refl
