-- ===== src/Lib.antt =====
-- Agente Citas: the backend that books appointments for small businesses.
--
-- The program: a chat agent, a dashboard and schedulers call use cases (src/application), which work
-- on entities (src/domain) through repositories (src/infrastructure/persistence). Modelled is the core
-- that those callers share: the entities with their state machines, the repositories that the use
-- cases read and write, the use cases for appointments, for the search of free slots, for opening
-- hours, for memberships, for inbound messages, for logins, for the registration of tenants and for the management
-- of businesses, services and professionals, and the parser of dates and times. All paths are
-- from the repository's root.
--
-- Files and the code they model:
--   Base                 numbers, lists, texts, clock: what the code takes from Python
--   Errors               src/domain/shared/errors.py
--   Appointment          src/domain/appointment: the entity and its methods
--   Slot                 src/application/appointment/slot_occupancy.py
--   Service, Client, Professional, Hours
--                        src/domain/service, client, professional, business_hours
--   Membership           src/domain/membership: plans, periods, memberships
--   Tenant, Business, Identity
--                        src/domain/tenant, business, identity
--   Slug                 the slugs: TenantSlug of src/domain/tenant/value_objects.py, _slugify and the
--                        search for a free slug of the use cases
--   Store.Tables         the tables, and the transaction of src/application/shared/unit_of_work.py
--   Store.*              src/infrastructure/persistence/repositories, a file for each repository
--   Scheduling.Book      src/application/appointment/book_appointment.py
--   Scheduling.Move      src/application/appointment/reschedule_appointment.py
--   Scheduling.Close     cancel_appointment.py and complete_appointment.py beside it
--   Scheduling.Consult   get_appointment.py and list_appointments.py beside it
--   Availability         src/application/appointment/get_available_slots.py
--   Schedule             src/application/business_hours: setting, patching and reading the hours
--   Onboarding           src/application/onboarding: register_tenant.py and verify_email.py
--   Onboarding.Wizard    complete_wizard.py and connect_whatsapp.py beside them
--   Admin                src/application/business, service and professional
--   Enrollment           src/application/membership: granting, managing, looking up and listing
--                        memberships, editing and listing plans
--   Conversation         src/domain/conversation: messages, conversations, handovers
--   Tools                src/infrastructure/ai/agent_tools.py: the tools that write
--   Inbound              src/application/conversation/process_inbound_message.py
--   Sessions             src/application/identity, with src/infrastructure/adapters/jwt_service.py
--   Campaigns            src/infrastructure/scheduler/campaign_scheduler.py
--   Reminders            src/infrastructure/scheduler/reminder_scheduler.py
--   DateParser, TimeParser
--                        src/infrastructure/ai/date_parser.py: parse_date, parse_time
--   Examples             tests, and the theorems at concrete inputs
-- The child modules hold what is proved of their parents.
--
-- How the code is read:
--   - A method that changes its entity returns the result and the entity after it, also when it
--     raises, since Python keeps what was assigned before the raise.
--   - The database is a record of tables, each a list of rows. A use case is a function from a database
--     to a result and a database (Tx); an exception gives the database back unchanged, as the rollback
--     does. The rows are the entities: the mappers copy field by field.
--   - Use cases run one after another. For bookings of one service that is what the row lock
--     (SELECT ... FOR UPDATE on the service) does, in a booking and in a move.
--   - The tenant of the request context, which row-level security and the repositories filter by, is
--     an argument. So are the clock, read once by each method, and the ids that uuid4 gives; a theorem
--     that needs the ids to be new says so.
--   - Ids are natural numbers, texts are lists of code points, money is in cents, moments and spans
--     are microseconds, moments counted from the first instant of datetime in UTC. An input that can be
--     negative is an integer. Years past the last one of datetime are not excluded.
--   - zoneinfo is a parameter (zones): it may give any conversion of local moments to UTC for a name,
--     or none.
--   - Python's tables of Unicode are a parameter (Slug.Unicode): what normalize and encode keep of a
--     text, and its lower case. So are the hash of a password, the text of an access token and the
--     answers of the API of Meta. Redis is a list of entries, each with the moment at which it ends.
--   - Rows come in the order of their insertion where the code does not read them in order, but for the
--     services of a plan, which the database gives in any order (Db.arrange).
--   - The search for a free slug runs on fuel, a thousand rounds. Each round counts the suffix up, and
--     past 1000 the code gives up, so the fuel does not run out.
--   - The network that the campaigns send over is a parameter, which may answer anything to each message,
--     an exception included. The texts of the keys of the claims are represented by their parts.
--   - The agent is a parameter too: a function from what it is told and the database to its reply, what
--     its tools said of an escalation, and the calls of the tools that may write, whatever the channel
--     allows. The calls run on the session of the message: a use case that succeeds commits it, one that
--     raises rolls it back. What they committed before the handler itself raises is not represented.
--   - Calendar dates (Base.Calendar) are those of datetime.date; the date of a moment is found by
--     counting days from the first of January of the year 1.
--   - The loop of _slots_in_range runs on fuel, two more than the closing time. Each round moves the
--     start up by the step, a microsecond or more when the service lasts a minute or more, so the fuel
--     does not run out.
--
-- Not modelled: the agent, its prompts and the tools that only read, network clients and webhooks
-- (I/O, calls of a language model), HTTP routes and schemas, reports (SQL aggregation), migrations
-- and scripts, and the constraints of the schema but for the uniqueness of the claims of the
-- campaigns and the conversation that a stored reply refers to.
pub mod Base
pub mod Errors
pub mod Appointment
pub mod Slot
pub mod Service
pub mod Slug
pub mod Tenant
pub mod Business
pub mod Identity
pub mod Sessions
pub mod Client
pub mod Professional
pub mod Hours
pub mod Membership
pub mod Conversation
pub mod Store
pub mod Admin
pub mod Onboarding
pub mod Enrollment
pub mod Tools
pub mod Inbound
pub mod Campaigns
pub mod Reminders
pub mod DateParser
pub mod TimeParser
pub mod Scheduling
pub mod Schedule
pub mod Availability
pub mod Examples
