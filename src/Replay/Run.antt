-- ===== src/Replay/Run.antt =====
-- src/queue.c: the loop of `replay_log` over the records of a log.
use kuttidb.Base.{Bool, true, false, List, [], ◌∷◌}
use kuttidb.Wal.{Op, LogRecord}
use kuttidb.Queue.{Store}
use kuttidb.Replay.{
  apply_declare, apply_publish, apply_ack, apply_delivery, apply_requeue, apply_purge, apply_delete,
}
use kuttidb.Replay.Topology.{apply_exdeclare, apply_exbind, apply_exdelete, apply_exupdate}

unfoldable pub apply_op : Op → LogRecord → Store → Store × Bool
apply_op Op.log_declare r s = apply_declare s r.name r.durable r.aux r.payload
apply_op Op.log_publish r s = apply_publish s r.name r.id r.aux r.payload
apply_op Op.log_ack r s = apply_ack s r.name r.id
apply_op Op.log_deliver r s = apply_delivery s r.name r.id
apply_op Op.log_requeue r s = apply_requeue s r.name r.id r.aux
apply_op Op.log_purge r s = apply_purge s r.name
apply_op Op.log_delete r s = apply_delete s r.name
apply_op Op.log_exdeclare r s = apply_exdeclare s r.name r.durable r.aux r.payload
apply_op Op.log_exbind r s = apply_exbind s r.name r.aux r.payload false
apply_op Op.log_exunbind r s = apply_exbind s r.name r.aux r.payload true
apply_op Op.log_exdelete r s = apply_exdelete s r.name
apply_op Op.log_exupdate r s = apply_exupdate s r.name r.aux r.payload

unfoldable pub apply_record : LogRecord → Store → Store × Bool
unfolding apply_op
apply_record r s = apply_op r.op r s

-- What is left to do after a record: go on, or stop at a record that is not right.
unfoldable pub go_on : (Store → Store × Bool) → Store × Bool → Store × Bool
go_on rest (s, false) = (s, false)
go_on rest (s, true) = rest s

unfoldable pub replay : List LogRecord → Store → Store × Bool
unfolding go_on
replay [] s = (s, true)
replay (r ∷ rs) s = go_on (replay rs) (apply_record r s)
