-- ===== src/Tests/Upkeeping.antt =====
-- The theorems on the periodic tasks at concrete inputs.
use quinkgl_framework.Common.{◌≤◌, nat_eq, string_eq, pair_eq, length}
use quinkgl_framework.Transport.Upkeep.{nack_incomplete_buffers}
use quinkgl_framework.Transport.Upkeep.Nagging.{nack_incomplete_buffers-bounded}
use quinkgl_framework.Tests
use quinkgl_framework.Tests.Receiving.{waiting}

nack_incomplete_buffers-bounded_example :
    length (nack_incomplete_buffers Tests.open_host 20000 waiting).1 ≤ 1
nack_incomplete_buffers-bounded_example =
    nack_incomplete_buffers-bounded Tests.open_host 20000 waiting
