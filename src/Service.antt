-- ===== src/Service.antt =====
-- The run service (webapp/backend/runservice.py): the stages of a run, and the runs of a process.
mod Supervise
mod Kind
mod Active
mod Lanes
mod Honoured
mod Told
mod Settles
mod Tests
