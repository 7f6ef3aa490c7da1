-- ===== src/Network/Inputs.antt =====
-- A parser, a storage and a connection at their start, for the tests of the servers.
use bd_tarantul.Common.{true, false, none, [], ◌++◌, Bytes, bytes_eq, codes, pos}
use bd_tarantul.Protocol.Parser.{
  Parser, State, dispatch, end_name, step_name, step_key, step_get_key, step_flags,
  step_expr_time_start, step_expr_time, step_bytes, step_lf, push_digit, push_expr_digit,
  parse_from, parse, build, reset,
}
use bd_tarantul.Protocol.Parser.Numbers.{decimal, digit_sum}
use bd_tarantul.Protocol.Parser.Lines.{after_line}
use bd_tarantul.Storage.Nodes.{
  find, last, unlink, contains, erase, to_fresh_end, move_to_fresh_data, write_value,
}
use bd_tarantul.Storage.Lru.{
  Lru, remove_behind, remove_links, remove_node, remove_head, evict, insert_new_value, update_value,
  index_find, put, put_if_absent, set, delete, get,
}
use bd_tarantul.Execute.{execute}
use bd_tarantul.Network.Session.{
  Session, connected, built, parse_part, fill_part, perform, run_part, process_from, process, serve,
}
use bd_tarantul.Network.Session.Refines.{session}
use bd_tarantul.Network.Connection.{Connection, crlf, start, do_read, do_write, on_error, on_close}
use bd_tarantul.Network.Epoll.{
  reads, reads_writes, on_ready, settle, on_event, new_connection, on_new_connection, accept_all,
  on_reports,
}
use bd_tarantul.Network.Loads.{thread_process, thread_serve}

unfoldable pub program : Unit {0}
unfolding bytes_eq dispatch end_name step_name step_key step_get_key step_flags step_expr_time_start
    step_expr_time step_bytes step_lf push_digit push_expr_digit parse_from parse build reset
    decimal digit_sum find last unlink contains erase to_fresh_end move_to_fresh_data write_value
    remove_behind remove_links remove_node remove_head evict insert_new_value update_value
    index_find put put_if_absent set delete get execute built parse_part fill_part perform run_part
    process_from process serve start do_read do_write on_error on_close on_ready settle on_event
    new_connection on_new_connection accept_all on_reports after_line thread_process thread_serve
program = tt

abbrev pub fresh : Parser
fresh = record {
  state = State.s_name;
  name = [];
  keys = [];
  flags = 0;
  exprtime = pos 0;
  bytes = 0;
  negative = false;
  cur_key = [];
  parse_complete = false;
}

abbrev pub empty : Lru
empty = record { max_size = 10; current_size = 0; nodes = []; index = [] }

abbrev pub line : Bytes → Bytes
line s = s ++ crlf

abbrev pub at_first : Session Lru
at_first = connected fresh empty

abbrev pub get_line : Bytes
get_line = line (codes "get a")

-- The connection of a server at its start.
abbrev pub opened : Connection Lru
opened = record { session = at_first; alive = true; events = reads }

abbrev pub answered : Connection Lru
answered = record {
  session = session (reset fresh) none 0 [] empty (codes "END" ++ crlf);
  alive = true;
  events = reads_writes;
}
