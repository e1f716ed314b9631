-- ===== src/Lib.antt =====
-- The RSS reader's single-page application (rss_frontend/app/frontend) and the jobs of the Rails
-- application behind it (rss_frontend/app/jobs): a user signs in, submits addresses of feeds, watches the
-- requests that run in the background and reads the stories.
--
-- The parts and their files, below rss_frontend/app/frontend but for Jobs:
--   Client: api/client.js. `build_request` and `handle_response` are `request` before and after the call
--   of `fetch`; Client/Api has the calls of the object `api`. Client/Json has the values of bodies.
--   Dashboard: the component `Dashboard` of components/App.jsx. `handle_broadcast` is the callback of the
--   channel, `submit` and `settle` are `handleFeedSubmit` before and after its `await`, `load` is the
--   effect of the first render and `fire` the callback of the clean-up timers. `Page` holds the states,
--   the stories of the parent, and what is left with the browser: timers and open submissions.
--   Dashboard/Steps says which of these may happen next, in every order that the event loop can choose.
--   MainApp: `MainApp` and `Navigation` of components/App.jsx. `handle_login` and `handle_logout` take
--   the answers of the awaited calls as arguments and run in a monad of states and rejections; what is set
--   before an `await` is rendered, redirects included, before the call settles.
--   App: `MainApp` with the dashboard that it mounts and the calls of the API that are not answered. `answer`
--   is what follows each `await`, `then` or `catch`, `render` mounts and unmounts the dashboard by its
--   route, and mounts a new one after a redirect; `Step` and `Reach` are the events of user, server,
--   channel and clock, in every order.
--   FeedForm, FeedList, FeedItem: components/feeds/*.jsx. LoginForm: components/auth/LoginForm.jsx.
--   Shared: components/shared/*.jsx. Channel: hooks/useFeedChannel.js over cable.js.
--   Jobs: ../jobs/process_feed_result_job.rb, Jobs/Publish ../jobs/publish_feed_job.rb and
--   Jobs/Create ../controllers/api/v1/feeds_controller.rb. `Server` holds the table of requests and the
--   messages sent, `Memory` a record as ActiveRecord holds it; an exception is an `err` that keeps what was
--   written before.
--   Feeds: the data that these exchange. Dates: what of JavaScript's `Date` they use.
--   Base: lists, JavaScript strings as UTF-16 code units, settled promises, the stable sort.
--
-- How the parts interact: the dashboard's form hands its URLs to `handleFeedSubmit`, whose reply adds a
-- row; the channel's messages update rows and add stories to the parent's state; the parent shows the
-- dashboard or the form for signing in, by its state and the route. On the server one job hands a request
-- to the worker, or to the service's REST API, and another takes the worker's results; both write the
-- request's row and send the messages of the channel, which are the `Broadcast` that the dashboard handles.
--
-- Modelling: a setter of React is the next state, and updaters are applied in the order of their calls.
-- A promise is its outcome, `ok` with a value or `err` with an error's message. A view is a record of what
-- is shown and of what can be pressed; classes and styles are left out, except where they are computed.
-- Bodies that the components read are records with the fields that the controllers send; bodies that
-- `request` reads are any JSON values. Times are milliseconds as natural numbers. The only fuel is that of
-- `follow`, the rendering of redirects, and one unit is enough.
--
-- Parameters: the network, JSON.parse and JSON.stringify (`Browser`), the reading of a text as a date
-- (`parse`), the matching of route patterns (`Router`), ActionCable's consumer (`Consumer`), the properties
-- that every object inherits (`inherited`), and what the browser takes for a URL in an input (`is_url`). For
-- the jobs: the tables of feeds and stories with the cable (`Rails`), what queries of the table of requests
-- raise (`Faults`, `refuses`), the reading of a payload, and what the broker and the REST API answer.
--
-- Not modelled: the other controllers and services of Rails, the Go service behind them, the entry point, the
-- configuration of tools, and the vendored Swagger UI.
pub mod Base
pub mod Client
pub mod FeedForm
pub mod Feeds
pub mod Dates
pub mod FeedItem
pub mod Shared
pub mod FeedList
pub mod LoginForm
pub mod Channel
pub mod Dashboard
pub mod MainApp
pub mod App
pub mod Jobs
mod Examples
