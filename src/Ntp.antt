-- ===== src/Ntp.antt =====
-- `NTP Time Server/client.c`: the times of NTP, the fields of a response, and the choice among the
-- servers. An `ntp_time` that is only stored or shifted is the 64-bit word that it is kept in; the
-- arithmetic of `time_offset` and `time_delay` is on integers, where no difference overflows.
pub mod Clock
pub mod Choice
